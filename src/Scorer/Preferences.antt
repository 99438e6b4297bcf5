-- ===== src/Scorer/Preferences.antt =====
-- src/idr/utils/constants.py: ID_PREFERENCES and DEFAULT_ID_PREFERENCES.
use thenexusengine.Common.{String, List, [], ◌∷◌}

abbrev pub id_preferences : List (String × List String)
id_preferences =
    ("appnexus", "uid2" ∷ ("liveramp" ∷ ("id5" ∷ [])))
    ∷ (("rubicon", "liveramp" ∷ ("uid2" ∷ ("id5" ∷ [])))
        ∷ (("pubmatic", "uid2" ∷ ("id5" ∷ ("sharedid" ∷ [])))
            ∷ (("openx", "uid2" ∷ ("id5" ∷ ("liveramp" ∷ [])))
                ∷ (("ix", "id5" ∷ ("uid2" ∷ ("liveramp" ∷ [])))
                    ∷ (("triplelift", "uid2" ∷ ("id5" ∷ []))
                        ∷ (("sovrn", "uid2" ∷ ("id5" ∷ ("sharedid" ∷ [])))
                            ∷ (("sharethrough", "uid2" ∷ ("id5" ∷ []))
                                ∷ (("gumgum", "uid2" ∷ ("id5" ∷ []))
                                    ∷ (("33across", "id5" ∷ ("uid2" ∷ ("33across_id" ∷ [])))
                                        ∷ (("criteo", "criteo" ∷ [])
                                            ∷ (("teads", "uid2" ∷ ("id5" ∷ []))
                                                ∷ (("spotx", "uid2" ∷ ("liveramp" ∷ []))
                                                    ∷ (("beachfront", "uid2" ∷ ("id5" ∷ []))
                                                        ∷ ((
                                                          "unruly",
                                                          "uid2" ∷ ("id5" ∷ ("liveramp" ∷ [])),
                                                        )
                                                            ∷ (("adform", "id5" ∷ ("uid2" ∷ []))
                                                            ∷ ((
                                                            "smartadserver",
                                                            "uid2" ∷ ("id5" ∷ []),
                                                            )
                                                            ∷ ((
                                                            "improvedigital",
                                                            "id5" ∷ ("uid2" ∷ ("liveramp" ∷ [])),
                                                            )
                                                            ∷ [])))))))))))))))))

abbrev pub default_id_preferences : List String
default_id_preferences = "uid2" ∷ ("id5" ∷ ("liveramp" ∷ []))
