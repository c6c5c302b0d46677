-- ===== src/Tagging/Laws.antt =====
-- What the tagging service promises.
use miss_raspberry_agent.Prelude.{
  ◌==◌, if◌then◌else◌, Bool-cases, length, All, ℕ_eq, ℤ_eq, ℕ, ◌+◌, ◌≡◌, refl, ap, ◌⊎◌, inl, inr,
  false, Option, none, some, List, [], ◌∷◌, map, arith, Text, text_eq, text_eq_iff, text_eq_inst,
  is_empty, trim_space, Result, ok, err, Ctx,
}
use mathlib.Core.List.{Mem, mem-cons_self, mem-cons_of_mem}
use miss_raspberry_agent.Prelude.Table
use miss_raspberry_agent.Prelude.Table.{Table, get-put}
use miss_raspberry_agent.Tagging.{
  Tag, TagSet, Choice, RunError, find_tag, normalize_result, no_choice, reason_required,
}
use miss_raspberry_agent.Tagging.Service.{
  Sets, ServiceError, cleaned, has_name, clean_tags, clean_set, replace, register_set,
}

-- Tags that RegisterSet accepts: with a name and a rule each, and no name twice.
abbrev pub IsTagList : List Tag → Type 0
IsTagList [] = Unit
IsTagList (tag ∷ tags) =
    (is_empty tag.name ≡ false)
    × (is_empty tag.apply_rule ≡ false)
    × (has_name tag.name tags ≡ false)
    × IsTagList tags

abbrev Apart : List Tag → List Tag → Type 0
Apart done = All (λ tag. has_name tag.name done ≡ false)

has_name-Apart : (t : Tag) (done ts : List Tag) → Apart (t ∷ done) ts → has_name t.name ts ≡ false
unfolding has_name
has_name-Apart t done [] h = refl
has_name-Apart t done (u ∷ ts) h =
    ground (
      arith,
      h.0,
      has_name-Apart t done ts h.1,
      text_eq_iff t.name u.name,
      text_eq_iff u.name t.name,
    )

Apart-rest : (t : Tag) (done ts : List Tag) → Apart (t ∷ done) ts → Apart done ts
unfolding has_name
Apart-rest t done [] h = tt
Apart-rest t done (u ∷ ts) h = (ground (arith, h.0), Apart-rest t done ts h.1)

-- What the loop makes of tags.
abbrev Cleans : List Tag → List Tag → Result ServiceError (List Tag) → Type 0
Cleans done tags (err e) = Unit
Cleans done tags (ok ts) = (ts ≡ map cleaned tags) × IsTagList ts × Apart done ts

Cleans-cons :
    (done tags : List Tag) (tag : Tag) (r : Result ServiceError (List Tag))
    → is_empty (cleaned tag).name ≡ false
    → is_empty (cleaned tag).apply_rule ≡ false
    → has_name (cleaned tag).name done ≡ false
    → Cleans (cleaned tag ∷ done) tags r
    → Cleans done (tag ∷ tags) (elim r [ err e ↦ err e | ok ts ↦ ok (cleaned tag ∷ ts) ])
Cleans-cons done tags tag (err e) named ruled fresh h = tt
Cleans-cons done tags tag (ok ts) named ruled fresh (e, good, apart) = (
  ap (◌∷◌ (cleaned tag)) e,
  (named, ruled, has_name-Apart (cleaned tag) done ts apart, good),
  (fresh, Apart-rest (cleaned tag) done ts apart),
)

clean_tags-Cleans : (i : ℕ) (done tags : List Tag) → Cleans done tags (clean_tags i done tags)
unfolding clean_tags
clean_tags-Cleans i done [] = (refl, tt, tt)
clean_tags-Cleans i done (tag ∷ tags) = elim (Bool-cases (is_empty (cleaned tag).name)) [
  | inl unnamed ↦ rw (unnamed, clean_tags) tt
  | inr named ↦ elim (Bool-cases (is_empty (cleaned tag).apply_rule)) [
    | inl unruled ↦ rw (named, unruled, clean_tags) tt
    | inr ruled ↦ elim (Bool-cases (has_name (cleaned tag).name done)) [
      | inl twice ↦ rw (named, ruled, twice, clean_tags) tt
      | inr fresh ↦
          rw (named, ruled, fresh, clean_tags)
            (Cleans-cons done tags tag (clean_tags (i + 1) (cleaned tag ∷ done) tags) named ruled
              fresh (clean_tags-Cleans (i + 1) (cleaned tag ∷ done) tags))
    ]
  ]
]

-- What a reply of RegisterSet says of the sets: an error has left them as they were; otherwise the set's
-- trimmed name, which is not empty, now has a set with that name, the trimmed prompt, which is not empty, and the
-- cleaned tags, which have names and rules and no name twice, and every other name has what it had.
abbrev pub Registered : TagSet → Sets → Option Sets × Result ServiceError (Unit {0}) → Type 0
Registered set sets (store, err e) = store ≡ some sets
Registered set sets (none, ok _) = ⊥
Registered set sets (some sets', ok _) =
    (new : TagSet) × (new.name ≡ trim_space set.name)
    × (new.prompt ≡ trim_space set.prompt)
    × (new.tags ≡ map cleaned set.tags)
    × (is_empty new.name ≡ false)
    × (is_empty new.prompt ≡ false)
    × IsTagList new.tags
    × ((name : Text)
        → Table.get name sets'
          ≡ (if text_eq (trim_space set.name) name then some new else Table.get name sets))

register_clean :
    (set : TagSet) (sets : Sets) (r : Result ServiceError (List Tag))
    → is_empty (trim_space set.name) ≡ false
    → is_empty (trim_space set.prompt) ≡ false
    → Cleans [] set.tags r
    → Registered set sets
        (elim (elim r as (λ x. Result ServiceError TagSet) [
          | err e ↦ err e
          | ok tags ↦
              ok
                (record { name = trim_space set.name; prompt = trim_space set.prompt; tags = tags })
        ]) [ err e ↦ (some sets, err e) | ok set' ↦ (some (replace set' sets), ok tt) ])
unfolding replace
register_clean set sets (err e) named prompted h = refl
register_clean set sets (ok tags) named prompted (e, good, _) =
    let new : TagSet = record {
      name = trim_space set.name;
      prompt = trim_space set.prompt;
      tags = tags;
    } in
    (new, refl, refl, e, named, prompted, good, λ name. get-put (trim_space set.name) name new sets)

-- RegisterSet either fails and leaves the sets as they were, or stores a set with the trimmed name, the
-- trimmed prompt and the tags, trimmed and in order, under its trimmed name, in place of a set of that name and with no other change. The stored
-- tags have names and rules, and no two have the same name.
pub register_set_lem :
    (ctx : Ctx) (set : TagSet) (sets : Sets)
    → Registered set sets (register_set ctx set (some sets))
unfolding register_set clean_set
register_set_lem (some e) set sets = refl
register_set_lem none set sets = elim (Bool-cases (is_empty (trim_space set.name))) [
  | inl unnamed ↦ rw (unnamed, register_set, clean_set) refl
  | inr named ↦ elim (Bool-cases (is_empty (trim_space set.prompt))) [
    | inl silent ↦ rw (named, silent, register_set, clean_set) refl
    | inr prompted ↦ elim (Bool-cases (length set.tags == 0)) [
      | inl untagged ↦ rw (named, prompted, untagged, register_set, clean_set) refl
      | inr tagged ↦
          rw (named, prompted, tagged, register_set, clean_set)
            (register_clean set sets (clean_tags 0 [] set.tags) named prompted
              (clean_tags-Cleans 0 [] set.tags))
    ]
  ]
]

-- What a tag that is found for a name is.
abbrev pub FoundIn : Text → List Tag → Option Tag → Type 0
FoundIn name tags none = has_name name tags ≡ false
FoundIn name tags (some tag) = Mem tag tags × (tag.name ≡ name)

FoundIn-cons :
    (name : Text) (tag : Tag) (tags : List Tag) (o : Option Tag)
    → text_eq tag.name name ≡ false
    → FoundIn name tags o
    → FoundIn name (tag ∷ tags) o
unfolding has_name
FoundIn-cons name tag tags none other h = ground (arith, h)
FoundIn-cons name tag tags (some t) other (m, e) = (mem-cons_of_mem tag m, e)

pub find_tag-FoundIn : (name : Text) (tags : List Tag) → FoundIn name tags (find_tag name tags)
unfolding find_tag has_name
find_tag-FoundIn name [] = refl
find_tag-FoundIn name (tag ∷ tags) = elim (Bool-cases (text_eq tag.name name)) [
  | inl this ↦ rw this (mem-cons_self, (text_eq_iff tag.name name).0 this)
  | inr other ↦
      rw other (FoundIn-cons name tag tags (find_tag name tags) other (find_tag-FoundIn name tags))
]

-- What normalizeResult lets through: no choice, or the name of one of the tags with a reason.
abbrev pub IsChoice : List Tag → Result RunError Choice → Type 0
IsChoice tags (err e) = Unit
IsChoice tags (ok c) =
    (c ≡ no_choice)
    ⊎ ((tag : Tag) × Mem tag tags × (tag.name ≡ c.name) × (is_empty c.reason ≡ false))

choice_of :
    (tags : List Tag) (name reason : Text) (o : Option Tag)
    → FoundIn name tags o
    → IsChoice tags (elim o as (λ x. Result RunError Choice) [
      | none ↦ ok no_choice
      | some tag ↦
          if is_empty reason
          then err (reason_required name)
          else ok (record { name = name; reason = reason })
    ])
choice_of tags name reason none h = inl refl
choice_of tags name reason (some tag) (m, e) = elim (Bool-cases (is_empty reason)) [
  | inl silent ↦ rw silent tt
  | inr reasoned ↦ rw reasoned (inr (tag, m, e, reasoned))
]

-- Whatever the model answers, normalizeResult lets only a tag of the set through, and only with a
-- reason; otherwise the result is no choice, or an error.
pub normalize_result_lem : (r : Choice) (tags : List Tag) → IsChoice tags (normalize_result r tags)
unfolding normalize_result
normalize_result_lem r tags = elim (Bool-cases (is_empty (trim_space r.name))) [
  | inl unnamed ↦ rw (unnamed, normalize_result) (inl refl)
  | inr named ↦
      rw (named, normalize_result)
        (choice_of tags (trim_space r.name) (trim_space r.reason)
          (find_tag (trim_space r.name) tags) (find_tag-FoundIn (trim_space r.name) tags))
]
