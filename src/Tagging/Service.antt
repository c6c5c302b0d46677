-- ===== src/Tagging/Service.antt =====
-- internal/tagging/service.go and store.go.
use miss_raspberry_agent.Prelude.{
  ◌==◌, if◌then◌else◌, length, ℕ_eq, ℤ_eq, ℕ, ◌+◌, Bool, false, ◌||◌, Option, none, some, List, [],
  ◌∷◌, Text, text_eq, text_eq_inst, is_empty, trim_space, Result, ok, err, Ctx, CtxError,
}
use miss_raspberry_agent.Prelude.Table
use miss_raspberry_agent.Prelude.Table.{Table}
use miss_raspberry_agent.Tagging.{Tag, TagSet, Choice, RunError, find_tag}

-- The map of a Store
abbrev pub Sets : Type 0
Sets = Table Text TagSet

-- Replace
unfoldable pub replace : TagSet → Sets → Sets
replace set sets = Table.put set.name set sets

pub data ServiceError : Type 0 where
  context_done : CtxError → ServiceError
  no_store no_tagger set_name_required prompt_required no_tags text_required : ServiceError
  tag_name_required : ℕ → ServiceError
  rule_required duplicate_name not_found : Text → ServiceError
  tagger_failed : RunError → ServiceError

abbrev pub cleaned : Tag → Tag
cleaned tag = record {
  name = trim_space tag.name;
  description = trim_space tag.description;
  apply_rule = trim_space tag.apply_rule;
}

unfoldable pub has_name : Text → List Tag → Bool
has_name name [] = false
has_name name (tag ∷ tags) = text_eq tag.name name || has_name name tags

-- The loop of RegisterSet: `i` tags are done, and `done` are their cleaned tags, the newest first, whose
-- names are the `seen` ones.
unfoldable pub clean_tags : ℕ → List Tag → List Tag → Result ServiceError (List Tag)
clean_tags i done [] = ok []
clean_tags i done (tag ∷ tags) =
    let t = cleaned tag in
    let rest = clean_tags (i + 1) (t ∷ done) tags in
    if is_empty t.name
    then err (tag_name_required i)
    else if is_empty t.apply_rule
    then err (rule_required t.name)
    else if has_name t.name done
    then err (duplicate_name t.name)
    else elim rest [ err e ↦ err e | ok ts ↦ ok (t ∷ ts) ]

-- What RegisterSet stores, if it stores anything.
unfoldable pub clean_set : TagSet → Result ServiceError TagSet
clean_set set =
    if is_empty (trim_space set.name)
    then err set_name_required
    else if is_empty (trim_space set.prompt)
    then err prompt_required
    else if length set.tags == 0
    then err no_tags
    else elim (clean_tags 0 [] set.tags) [
      | err e ↦ err e
      | ok tags ↦
          ok (record { name = trim_space set.name; prompt = trim_space set.prompt; tags = tags })
    ]

-- RegisterSet
unfoldable pub register_set :
    Ctx → TagSet → Option Sets → Option Sets × Result ServiceError (Unit {0})
register_set (some e) set store = (store, err (context_done e))
register_set none set none = (none, err no_store)
register_set none set (some sets) = elim (clean_set set) [
  | err e ↦ (some sets, err e)
  | ok set' ↦ (some (replace set' sets), ok tt)
]

pub record Match : Type 0 where
  pub tag : Tag
  pub reason : Text

-- The end of Tag
unfoldable pub match_of : TagSet → Choice → Option Match
match_of set result = if is_empty result.name then none else elim (find_tag result.name set.tags) [
  | none ↦ none
  | some tag ↦ some (record { tag = tag; reason = result.reason })
]

-- Tag; no match is the result `ok none`.
unfoldable pub tag_text :
    Ctx
    → Option (TagSet → Text → Result RunError Choice)
    → Option Sets
    → Text
    → Text
    → Result ServiceError (Option Match)
tag_text (some e) tagger store set_name text = err (context_done e)
tag_text none tagger none set_name text = err no_store
tag_text none none (some sets) set_name text = err no_tagger
tag_text none (some run) (some sets) set_name text =
    if is_empty (trim_space set_name)
    then err set_name_required
    else if is_empty (trim_space text)
    then err text_required
    else elim (Table.get (trim_space set_name) sets) [
      | none ↦ err (not_found (trim_space set_name))
      | some set ↦ elim (run set text) [
        | err e ↦ err (tagger_failed e)
        | ok result ↦ ok (match_of set result)
      ]
    ]
