-- ===== src/Tagging/Tests.antt =====
-- Tag sets at concrete data.
use miss_raspberry_agent.Prelude.{
  ◌≡◌, refl, none, some, [], ◌∷◌, codes, text_eq, is_space, trim_space, err,
}
use miss_raspberry_agent.Tagging.{Tag, TagSet, Choice}
use miss_raspberry_agent.Tagging.Service.{
  register_set, clean_set, clean_tags, has_name, duplicate_name,
}

abbrev urgent : Tag
urgent = record { name = codes " urgent "; description = []; apply_rule = codes "asks for help" }

abbrev moods : TagSet
moods = record { name = codes "moods"; prompt = codes "choose"; tags = urgent ∷ [] }

-- A set with the same tag twice is refused.
register_set-twice :
    register_set none (record moods { tags = urgent ∷ urgent ∷ [] }) (some [])
    ≡ (some [], err (duplicate_name (codes "urgent")))
unfolding register_set clean_set clean_tags has_name trim_space is_space text_eq
register_set-twice = refl

abbrev answer : Choice
answer = record { name = codes "urgent"; reason = codes "it is late" }
