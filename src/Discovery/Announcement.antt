-- ===== src/Discovery/Announcement.antt =====
-- discovery/service_info/mod.rs and packet.rs: what a service announces.
use scamp_rs.Common.{ℕ, Option, List, Text}

pub data CrudOp : Type 0 where
  create read update delete : CrudOp

pub data Flag : Type 0 where
  no_auth : Flag
  timeout : ℕ → Flag
  other : Text → Flag
  crud_op : CrudOp → Flag

pub data PacketSection : Type 0 where
  v3 v4 : PacketSection

pub record ServiceInfo : Type 0 where
  pub identity : Text
  pub uri : Text
  pub fingerprint : Option Text

pub record Action : Type 0 where
  pub path : Text
  pub version : ℕ
  pub pathver : Text
  pub flags : List Flag
  pub sector : Text
  pub envelopes : List Text
  pub packet_section : PacketSection

-- The types below stand over the type `F` of `f64`.
pub record AnnouncementParams (F : Type 0) : Type 0 where
  pub weight : ℕ
  pub interval : ℕ
  pub timestamp : F

pub record AnnouncementBody (F : Type 0) : Type 0 where
  pub info : ServiceInfo
  pub params : AnnouncementParams F
  pub actions : List Action

pub record AnnouncementPacket (F : Type 0) : Type 0 where
  pub json_blob : Text
  pub body : AnnouncementBody F
  pub certificate : Text
  pub signature : Text
