-- ===== src/Classifier/Ortb.antt =====
-- The OpenRTB request that src/idr/classifier/request_classifier.py reads. Of a dictionary the keys that
-- are read are modelled, each present or absent, with the type that OpenRTB gives it; `others` tells
-- if there are further keys, or keys whose list or dictionary is empty, where the code tests if a
-- dictionary is empty.
use thenexusengine.Common.{
  ℕ, String, Bool, false, ◌||◌, Option, none, some, List, [], is_some, not, null,
}
use thenexusengine.Scores.{Float}

pub record Size : Type 0 where
  pub w : Option ℕ
  pub h : Option ℕ

pub record Banner : Type 0 where
  pub format : List Size
  pub size : Size
  pub pos : Option ℕ
  pub others : Bool

pub record Video : Type 0 where
  pub size : Size
  pub others : Bool

-- `native` and `audio` tell if the key has a dictionary that is not empty.
pub record Imp : Type 0 where
  pub id : Option String
  pub tagid : Option String
  pub banner : Option Banner
  pub video : Option Video
  pub native : Bool
  pub audio : Bool
  pub bidfloor : Option Float
  pub bidfloorcur : Option String

pub record Geo : Type 0 where
  pub country : Option String
  pub region : Option String
  pub metro : Option String
  pub dma : Option String
  pub others : Bool

pub record Device : Type 0 where
  pub ua : Option String
  pub geo : Option Geo
  pub devicetype : Option ℕ
  pub os : Option String
  pub connectiontype : Option ℕ

pub record Content : Type 0 where
  pub context : Option String
  pub cat : List String

-- A site or an app.
pub record Source : Type 0 where
  pub id : Option String
  pub publisher_id : Option String
  pub domain : Option String
  pub bundle : Option String
  pub page : Option String
  pub cat : List String
  pub pagecat : List String
  pub sectioncat : List String
  pub content : Option Content
  pub others : Bool

-- An extended identifier: its source, and the identifiers of its list, each with its key `id` or
-- without.
pub record Eid : Type 0 where
  pub source : Option String
  pub uids : List (Option String)

pub record User : Type 0 where
  pub id : Option String
  pub buyeruid : Option String
  pub consent : Option String
  pub eids : List Eid

pub record Regs : Type 0 where
  pub gdpr : Option ℕ
  pub us_privacy : Option String
  pub ext_gpp : Option String
  pub gpp : Option String
  pub coppa : Option ℕ

pub record OrtbRequest : Type 0 where
  pub imp : List Imp
  pub device : Option Device
  pub site : Option Source
  pub app : Option Source
  pub user : Option User
  pub regs : Option Regs
  pub geo : Option Geo

-- The empty dictionaries that stand in for missing ones.
abbrev pub no_size : Size
no_size = record { w = none; h = none }

abbrev pub no_banner : Banner
no_banner = record { format = []; size = no_size; pos = none; others = false }

abbrev pub no_imp : Imp
no_imp = record {
  id = none;
  tagid = none;
  banner = none;
  video = none;
  native = false;
  audio = false;
  bidfloor = none;
  bidfloorcur = none;
}

abbrev pub no_geo : Geo
no_geo = record { country = none; region = none; metro = none; dma = none; others = false }

abbrev pub no_device : Device
no_device = record { ua = none; geo = none; devicetype = none; os = none; connectiontype = none }

abbrev pub no_content : Content
no_content = record { context = none; cat = [] }

abbrev pub no_source : Source
no_source = record {
  id = none;
  publisher_id = none;
  domain = none;
  bundle = none;
  page = none;
  cat = [];
  pagecat = [];
  sectioncat = [];
  content = none;
  others = false;
}

abbrev pub no_user : User
no_user = record { id = none; buyeruid = none; consent = none; eids = [] }

abbrev pub no_regs : Regs
no_regs = record { gdpr = none; us_privacy = none; ext_gpp = none; gpp = none; coppa = none }

-- The truth of a dictionary: it has a key.
abbrev pub has_size : Size → Bool
has_size s = is_some s.w || is_some s.h

abbrev pub has_banner : Banner → Bool
has_banner b = not (null b.format) || (has_size b.size || (is_some b.pos || b.others))

abbrev pub has_video : Option Video → Bool
has_video none = false
has_video (some v) = has_size v.size || v.others

abbrev pub has_geo : Geo → Bool
has_geo g =
    is_some g.country || (is_some g.region || (is_some g.metro || (is_some g.dma || g.others)))

abbrev pub has_source : Source → Bool
has_source s =
    is_some s.id
    || (is_some s.publisher_id
        || (is_some s.domain
            || (is_some s.bundle
                || (is_some s.page
                    || (not (null s.cat)
                        || (not (null s.pagecat)
                            || (not (null s.sectioncat) || (is_some s.content || s.others))))))))
