-- ===== src/Auth/Services/File.antt =====
-- auth/authorized_services.rs: the file of the authorized services, its parser and its reload.
use scamp_rs.Auth.Services.{AuthorizedServices, empty_services, has_colon}
use scamp_rs.Common.{
  ℕ, zero, suc, Bool, true, false, not, Option, none, some, List, [], ◌∷◌, ◌++◌, map, Text, codes,
  is_empty, starts_with, retain, ◌==◌, if◌then◌else◌, ◌>>=◌,
}
use scamp_rs.Common.Maps.{Map, insert, text_key}
use scamp_rs.Strings.Fields.{split}
use scamp_rs.Strings.Lines.{lines, trim, before_first, split_once}
use scamp_rs.Strings.Split.{is_whitespace}

-- The regex crate: `escape`, and `Regex::new` with `is_match`.
pub record RegexCrate : Type 0 where
  pub escape : Text → Text
  pub compile : Text → Option (Text → Bool)

-- `replace(":ALL", ":.*")`; the number counts the characters of a match that are still to pass over.
replace_all_from : ℕ → Text → Text
replace_all_from skip [] = []
replace_all_from (suc skip) (c ∷ s) = replace_all_from skip s
replace_all_from zero (c ∷ s) =
    let matched = replace_all_from 3 s in
    let rest = replace_all_from 0 s in
    if starts_with (codes ":ALL") (c ∷ s) then codes ":.*" ++ matched else c ∷ rest

module _ (regex : RegexCrate) where
  -- The regular expression of a token.
  unfoldable pub token_pattern : Text → Text
  unfolding replace_all_from has_colon
  token_pattern token =
      let escaped = regex.escape token in
      codes "(?i)^(?:"
      ++ (if has_colon escaped then replace_all_from 0 escaped else codes "main:" ++ escaped)
      ++ codes ")(?:\\.|$)"

  -- The tokens that compile.
  unfoldable pub compiled : List Text → List (Text → Bool)
  unfolding token_pattern
  compiled [] = []
  compiled (token ∷ tokens) = elim (regex.compile (token_pattern token)) [
    | none ↦ compiled tokens
    | some rx ↦ rx ∷ compiled tokens
  ]

  unfoldable pub tokens_of : Text → List Text
  unfolding split
  tokens_of tokens_str = retain (λ t. not (is_empty t)) (map (λ t. trim t) (split 0x2C tokens_str))

  -- The fingerprint of a line and its patterns, if the line has both.
  unfoldable pub entry_of : Text → Option (Text × List (Text → Bool))
  unfolding compiled tokens_of is_whitespace
  entry_of line =
      let line = trim (before_first 0x23 line) in
      if is_empty line then none else elim (split_once is_whitespace line) [
        | none ↦ none
        | some (fp, rest) ↦ some (trim fp, compiled (tokens_of (trim rest)))
      ]

  unfoldable pub insert_lines :
      List Text → Map Text (List (Text → Bool)) → Map Text (List (Text → Bool))
  unfolding entry_of
  insert_lines [] entries = entries
  insert_lines (line ∷ rest) entries = elim (entry_of line) [
    | none ↦ insert_lines rest entries
    | some (fingerprint, patterns) ↦ insert_lines rest (insert fingerprint patterns entries)
  ]

  unfoldable pub parse_content : Text → AuthorizedServices → AuthorizedServices
  unfolding insert_lines lines
  parse_content content svc = record svc { entries = insert_lines (lines content) [] }

  -- `reload`, over what reading the file and its time give; a failure leaves the state.
  unfoldable pub reload : Option Text → Option ℕ → AuthorizedServices → Option AuthorizedServices
  unfolding parse_content
  reload content mtime svc = if is_empty svc.file_path then some svc else do
    text ← content
    modified ← mtime
    some (parse_content text (record svc { last_mtime = some modified }))

  is_time : ℕ → Option ℕ → Bool
  is_time mtime none = false
  is_time mtime (some last) = last == mtime

  -- `reload_if_changed`: whether the file was read again; `stat` is its time before it is read.
  unfoldable pub reload_if_changed :
      Option ℕ → Option Text → Option ℕ → AuthorizedServices → Option (Bool × AuthorizedServices)
  unfolding reload is_time
  reload_if_changed stat content mtime svc =
      if is_empty svc.file_path then some (false, svc) else do
        modified ← stat
        if is_time modified svc.last_mtime
            then some (false, svc)
            else do fresh ← reload content mtime svc; some (true, fresh)

  -- `AuthorizedServices::load`
  unfoldable pub load : Text → Option Text → Option ℕ → Option AuthorizedServices
  unfolding reload
  load path content mtime = reload content mtime (record empty_services { file_path = path })
