-- ===== src/Strings/Split.antt =====
-- `str::split_whitespace`, `str::split` at a character and `str::rsplit_once`.
use scamp_rs.Common.{
  ℕ, ◌≡◌, ◌≢◌, refl, sym, ap, ◌∙◌, Bool, true, false, ◌&&◌, ◌||◌, List, [], ◌∷◌, ◌++◌, append_assoc,
  append-nil, leb, ◌==◌, if◌then◌else◌, Text, All,
}

-- `char::is_whitespace`: the property White_Space of Unicode.
unfoldable pub is_whitespace : ℕ → Bool
is_whitespace c =
    (leb 9 c && leb c 13)
    || c == 0x20
    || c == 0x85
    || c == 0xA0
    || c == 0x1680
    || (leb 0x2000 c && leb c 0x200A)
    || c == 0x2028
    || c == 0x2029
    || c == 0x202F
    || c == 0x205F
    || c == 0x3000

-- A finished word is kept if it is not empty.
push_word : Text → List Text → List Text
push_word [] words = words
push_word (c ∷ w) words = (c ∷ w) ∷ words

-- The words of a text behind the characters `word` of an unfinished one.
words_from : Text → Text → List Text
unfolding push_word is_whitespace
words_from word [] = push_word word []
words_from word (c ∷ s) =
    let cut = words_from [] s in
    let more = words_from (word ++ c ∷ []) s in if is_whitespace c then push_word word cut else more

unfoldable pub split_whitespace : Text → List Text
unfolding words_from
split_whitespace = words_from []

abbrev pub IsSolid : Text → Type 0
IsSolid = All (λ c. is_whitespace c ≡ false)

words_from_solid :
    (word : Text) (c : ℕ) (s : Text)
    → is_whitespace c ≡ false
    → words_from word (c ∷ s) ≡ words_from (word ++ c ∷ []) s
unfolding words_from
words_from_solid word c s h = rw (h, words_from)

words_from-append :
    (word w s : Text) → IsSolid w → words_from word (w ++ s) ≡ words_from (word ++ w) s
words_from-append word [] s h = rw append-nil
words_from-append word (c ∷ w) s h =
    words_from_solid word c (w ++ s) h.0
    ∙ words_from-append (word ++ c ∷ []) w s h.1
    ∙ ap (λ t. words_from t s) (append_assoc word (c ∷ []) w)

push_word_lem : (w : Text) (words : List Text) → w ≢ [] → push_word w words ≡ w ∷ words
unfolding push_word
push_word_lem [] words h = absurd (h refl)
push_word_lem (c ∷ w) words h = refl

-- A word that a white space follows.
pub split_whitespace_word :
    (w : Text) (c : ℕ) (s : Text)
    → w ≢ []
    → IsSolid w
    → is_whitespace c ≡ true
    → split_whitespace (w ++ c ∷ s) ≡ w ∷ split_whitespace s
unfolding split_whitespace
split_whitespace_word w c s h solid space =
    words_from-append [] w (c ∷ s) solid
    ∙ unfold words_from in rw (space, words_from) (push_word_lem w _ h)

-- A word that ends the text.
pub split_whitespace_last : (w : Text) → w ≢ [] → IsSolid w → split_whitespace w ≡ w ∷ []
unfolding split_whitespace
split_whitespace_last w h solid =
    ap (words_from []) {x = w} (sym (append-nil w))
    ∙ words_from-append [] w [] solid
    ∙ unfold words_from in push_word_lem w [] h
