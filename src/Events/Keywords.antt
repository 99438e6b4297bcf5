-- ===== src/Events/Keywords.antt =====
-- A call of a dataclass by keywords, as Python binds it, and the call of `ClassifiedRequest` that
-- `_process_event` makes (src/idr/models/classified_request.py, src/idr/database/event_pipeline.py).
use thenexusengine.Common.{
  String, Bool, true, false, ◌&&◌, ◌||◌, List, [], ◌∷◌, map, all, string_eq,
}
use thenexusengine.Common.Members.{contains}

-- A field of a dataclass, with whether it has a default.
abbrev pub Field : Type 0
Field = String × Bool

-- A call binds if each keyword names a field and each field without a default is given. If it does
-- not, it raises `TypeError`.
unfoldable pub binds : List Field → List String → Bool
binds fields keywords =
    all (contains (map (λ f. f.0) fields)) keywords
    && all (λ f. f.1 || contains keywords f.0) fields

abbrev pub classified_request_fields : List Field
classified_request_fields =
    ("impression_id", false)
    ∷ (("ad_format", false)
        ∷ (("ad_unit_id", true)
            ∷ (("ad_sizes", true)
                ∷ (("position", true)
                    ∷ (("device_type", true)
                        ∷ (("os", true)
                            ∷ (("browser", true)
                                ∷ (("connection_type", true)
                                    ∷ (("country", true)
                                        ∷ (("region", true)
                                            ∷ (("dma", true)
                                                ∷ (("publisher_id", true)
                                                    ∷ (("site_id", true)
                                                        ∷ (("domain", true)
                                                            ∷ (("page_type", true)
                                                            ∷ (("categories", true)
                                                            ∷ (("user_ids", true)
                                                            ∷ (("has_consent", true)
                                                            ∷ (("consent_string", true)
                                                            ∷ (("consent_signals", true)
                                                            ∷ (("timestamp", true)
                                                            ∷ (("hour_of_day", true)
                                                            ∷ (("day_of_week", true)
                                                            ∷ (("floor_price", true)
                                                            ∷ (("floor_currency", true)
                                                            ∷ [])))))))))))))))))))))))))

-- The keywords of the call in `_process_event`.
abbrev pub request_keywords : List String
request_keywords =
    "request_id"
    ∷ ("timestamp"
        ∷ ("country" ∷ ("device_type" ∷ ("ad_format" ∷ ("primary_size" ∷ ("publisher_id" ∷ []))))))
