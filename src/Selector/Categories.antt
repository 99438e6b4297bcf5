-- ===== src/Selector/Categories.antt =====
-- src/idr/utils/constants.py, `BIDDER_CATEGORIES`.
use thenexusengine.Common.{String, Option, List, [], ◌∷◌, string_eq}
use thenexusengine.Common.Members.{lookup}

unfoldable pub bidder_categories : List (String × String)
bidder_categories =
    ("appnexus", "premium")
    ∷ ("rubicon", "premium")
    ∷ ("pubmatic", "premium")
    ∷ ("openx", "premium")
    ∷ ("ix", "premium")
    ∷ ("triplelift", "mid_tier")
    ∷ ("sovrn", "mid_tier")
    ∷ ("sharethrough", "mid_tier")
    ∷ ("gumgum", "mid_tier")
    ∷ ("33across", "mid_tier")
    ∷ ("conversant", "mid_tier")
    ∷ ("yieldmo", "mid_tier")
    ∷ ("kargo", "mid_tier")
    ∷ ("spotx", "video_specialist")
    ∷ ("beachfront", "video_specialist")
    ∷ ("unruly", "video_specialist")
    ∷ ("telaria", "video_specialist")
    ∷ ("springserve", "video_specialist")
    ∷ ("teads", "native")
    ∷ ("outbrain", "native")
    ∷ ("taboola", "native")
    ∷ ("nativo", "native")
    ∷ ("adform", "emea")
    ∷ ("smartadserver", "emea")
    ∷ ("improvedigital", "emea")
    ∷ ("richaudience", "emea")
    ∷ ("fluct", "apac")
    ∷ ("mediafuse", "apac")
    ∷ ("inmobi", "mobile")
    ∷ ("smaato", "mobile")
    ∷ ("verizonmedia", "mobile")
    ∷ []

-- `BIDDER_CATEGORIES.get(bidder_code)`
unfoldable pub category_of : String → Option String
category_of bidder_code = lookup bidder_categories bidder_code
