-- ===== src/Http/TagAnswers.antt =====
-- What the answer to a text to tag says.
use miss_raspberry_agent.Prelude.{
  if◌then◌else◌, Bool-cases, Option-cases, ℤ, ℕ_eq, ℤ_eq, ◌≡◌, refl, sym, subst, ◌⊎◌, inl, inr,
  true, false, Option, none, some, Text, text_eq_inst, is_empty, trim_space, Result-cases, Result,
  ok, err, Ctx,
}
use mathlib.Core.List.{Mem}
use miss_raspberry_agent.Todo
use miss_raspberry_agent.Todo.{Item}
use miss_raspberry_agent.Prelude.Table
use miss_raspberry_agent.Tagging.{Tag, TagSet, Choice, RunError, find_tag}
use miss_raspberry_agent.Tagging.Service.{
  Sets, ServiceError, Match, match_of, tag_text, not_found, has_name,
}
use miss_raspberry_agent.Tagging.Laws.{FoundIn, find_tag-FoundIn}
use miss_raspberry_agent.Http.{
  Api, HttpRequest, World, Response, route, post_tag, is_authorized, respond, failure, handle,
  handle_api, tag, tagged, TagRequest, is_invalid_tag_set, is_not_found, tagging_failed,
  internal_error,
}
use miss_raspberry_agent.Http.Outcomes.{IsRefusal}

-- The function that chooses a tag from a set for a text
abbrev pub Tagger : Type 0
Tagger = TagSet → Text → Result RunError Choice

-- What the answer of Tag says, for the sets of its store and its tagger.
data TextOutcome (tagger : Option Tagger) (name text : Text) (sets : Sets)
    : Result ServiceError (Option Match) → Type 0 where
  text_refused :
      (e : ServiceError) → is_not_found e ≡ false → TextOutcome tagger name text sets (err e)
  text_missing :
      Table.get (trim_space name) sets ≡ none
      → TextOutcome tagger name text sets (err (not_found (trim_space name)))
  text_answered :
      (run : Tagger) (set : TagSet) (choice : Choice)
      → tagger ≡ some run
      → Table.get (trim_space name) sets ≡ some set
      → run set text ≡ ok choice
      → TextOutcome tagger name text sets (ok (match_of set choice))

tag_text-TextOutcome :
    (ctx : Ctx) (tagger : Option Tagger) (sets : Sets) (name text : Text)
    → TextOutcome tagger name text sets (tag_text ctx tagger (some sets) name text)
unfolding tag_text is_not_found
tag_text-TextOutcome (some e) tagger sets name text = text_refused _ refl
tag_text-TextOutcome none none sets name text = text_refused _ refl
tag_text-TextOutcome none (some run) sets name text =
    elim (Bool-cases (is_empty (trim_space name))) [
      | inl unnamed ↦ rw (unnamed, tag_text) (text_refused _ refl)
      | inr named ↦ elim (Bool-cases (is_empty (trim_space text))) [
        | inl blank ↦ rw (named, blank, tag_text) (text_refused _ refl)
        | inr filled ↦ elim (Option-cases (Table.get (trim_space name) sets)) [
          | inl absent ↦ rw (named, filled, absent, tag_text) (text_missing absent)
          | inr (set, stored) ↦ elim (Result-cases (run set text)) [
            | inl (e, failed) ↦ rw (named, filled, stored, failed, tag_text) (text_refused _ refl)
            | inr (choice, chosen) ↦
                rw (named, filled, stored, chosen, tag_text)
                  (text_answered run set choice refl stored chosen)
          ]
        ]
      ]
    ]

abbrev tag_answer : TagRequest → Result ServiceError (Option Match) → Response
tag_answer query answer = elim answer [
  | err e ↦
      if is_not_found e
      then respond 404 (failure (tagging_failed e))
      else if is_invalid_tag_set e
      then respond 400 (failure (tagging_failed e))
      else respond 500 (failure internal_error)
  | ok match_found ↦ respond 200 (
      tagged query.name (elim match_found [
        | none ↦ none
        | some m ↦ some (record { name = m.tag.name; reason = m.reason })
      ]))
]

module _ (api : Api) (now : ℤ) (req : HttpRequest) (queue : Option Todo.Store) (sets : Sets) where
  -- What the tagger has chosen for the text in the body, from the set that is stored under its trimmed name
  pub record Chosen (query : TagRequest) (set : TagSet) (choice : Choice) : Type 0 where
    bound : api.bind_tag req.body ≡ ok query
    stored : Table.get (trim_space query.name) sets ≡ some set
    run : Tagger
    has_tagger : api.tagger ≡ some run
    chosen : run set query.text ≡ ok choice

  -- What an answer to a text to tag says.
  pub data TagOutcome : Response → Type 0 where
    refused : (r : Response) → IsRefusal r → TagOutcome r
    missing :
        (query : TagRequest) (e : ServiceError)
        → api.bind_tag req.body ≡ ok query
        → Table.get (trim_space query.name) sets ≡ none
        → TagOutcome (respond 404 (failure (tagging_failed e)))
    no_tag :
        (query : TagRequest) (set : TagSet) (choice : Choice)
        → Chosen query set choice
        → (is_empty choice.name ≡ true) ⊎ (has_name choice.name set.tags ≡ false)
        → TagOutcome (respond 200 (tagged query.name none))
    found :
        (query : TagRequest) (set : TagSet) (choice : Choice) (t : Tag)
        → Chosen query set choice
        → is_empty choice.name ≡ false
        → Mem t set.tags
        → t.name ≡ choice.name
        → TagOutcome (
            respond 200
              (tagged query.name (some (record { name = choice.name; reason = choice.reason }))))

  found_outcome :
      (query : TagRequest) (set : TagSet) (choice : Choice)
      → Chosen query set choice
      → is_empty choice.name ≡ false
      → (o : Option Tag) → FoundIn choice.name set.tags o
      → TagOutcome (
          tag_answer query (
            ok (elim o [
              | none ↦ none
              | some t ↦ some (record { tag = t; reason = choice.reason })
            ])))
  found_outcome query set choice c named none h = no_tag query set choice c (inr h)
  found_outcome query set choice c named (some t) (m, e) =
      rw e (found query set choice t c named m e)

  match_outcome :
      (query : TagRequest) (set : TagSet) (choice : Choice)
      → Chosen query set choice
      → TagOutcome (tag_answer query (ok (match_of set choice)))
  unfolding match_of
  match_outcome query set choice c = elim (Bool-cases (is_empty choice.name)) [
    | inl unnamed ↦ rw (unnamed, match_of) (no_tag query set choice c (inl unnamed))
    | inr named ↦
        rw (named, match_of)
          (found_outcome query set choice c named (find_tag choice.name set.tags)
            (find_tag-FoundIn choice.name set.tags))
  ]

  text_outcome :
      (query : TagRequest) (r : Result ServiceError (Option Match))
      → api.bind_tag req.body ≡ ok query
      → TextOutcome api.tagger query.name query.text sets r
      → TagOutcome (tag_answer query r)
  unfolding is_not_found
  text_outcome query r bound (text_refused e known) = elim (Bool-cases (is_invalid_tag_set e)) [
    | inl wrong ↦ rw (known, wrong) (refused _ (inl refl))
    | inr other ↦ rw (known, other) (refused _ (inr (inr refl)))
  ]
  text_outcome query r bound (text_missing absent) = missing query _ bound absent
  text_outcome query r bound (text_answered run set choice has_tagger stored chosen) =
      match_outcome query set choice (record {
        bound = bound;
        stored = stored;
        run = run;
        has_tagger = has_tagger;
        chosen = chosen;
      })

  -- An authorized POST of a text to tag changes nothing. Its status is 400, 422 or 500; or it is 404, and
  -- no set is stored under the trimmed name in the body; or it is 200, a set is stored there, and the tagger
  -- has chosen for that set and the text in the body: the answer has the name and the reason that it chose,
  -- and this is the name of one of the set's tags; or it has no tag, and the name that it chose is empty or
  -- that of none of them.
  pub post_tag_lem :
      route req ≡ post_tag
      → is_authorized api.token req ≡ true
      → (let world : World = record { queue = queue; sets = some sets } in
          ((handle api now req world).0 ≡ world) × TagOutcome (handle api now req world).1)
  unfolding handle handle_api tag
  post_tag_lem posted authorized = elim (Result-cases (api.bind_tag req.body)) [
    | inl (e, bad) ↦ (
      rw (posted, authorized, handle) refl,
      rw (posted, authorized, bad, handle, tag) (refused _ (inl refl)),
    )
    | inr (query, bound) ↦
        let world : World = record { queue = queue; sets = some sets } in
        let answer = tag_text req.ctx api.tagger (some sets) query.name query.text in
        let handled : (handle api now req world).1 ≡ tag_answer query answer =
          rw (posted, authorized, bound, handle, tag) refl in
        (
          rw (posted, authorized, handle) refl,
          subst (TagOutcome) (sym handled) (
              text_outcome query answer bound
                (tag_text-TextOutcome req.ctx api.tagger sets query.name query.text)),
        )
  ]
