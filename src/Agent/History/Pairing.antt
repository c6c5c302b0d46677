-- ===== src/Agent/History/Pairing.antt =====
-- What sanitizeHistory promises of tool messages.
use miss_raspberry_agent.Prelude.{
  if◌then◌else◌, Bool-cases, ◌≡◌, refl, ◌↔◌, ◌⊎◌, inl, inr, true, false, List, [], ◌∷◌, arith, Text,
  text_eq, text_eq_iff,
}
use miss_raspberry_agent.Agent.History.{
  Role, system, user, assistant, tool, Message, pending, without, sanitize_from, sanitize_history,
}

-- The messages are read from the newest back to the oldest: `id` is pending when the newest assistant
-- message calls it, and no tool message since then has answered it.
abbrev pub Awaits : List Message → Text → Type 0
Awaits [] id = ⊥
Awaits (m ∷ earlier) id = elim m.role [
  | assistant ↦ pending id m.tool_calls ≡ true
  | tool ↦ (text_eq m.tool_call_id id ≡ false) × Awaits earlier id
  | _ ↦ Awaits earlier id
]

-- Each tool message answers a call that awaits it; `earlier` are the messages before, newest first.
abbrev pub Answered : List Message → List Message → Type 0
Answered earlier [] = Unit
Answered earlier (m ∷ ms) =
    elim m.role [ tool ↦ Awaits earlier m.tool_call_id | _ ↦ Unit ] × Answered (m ∷ earlier) ms

Role-cases : (r : Role) → (r ≡ system) ⊎ (r ≡ user) ⊎ (r ≡ assistant) ⊎ (r ≡ tool)
Role-cases system = inl refl
Role-cases user = inr (inl refl)
Role-cases assistant = inr (inr (inl refl))
Role-cases tool = inr (inr (inr refl))

pending-without :
    (t id : Text) (ids : List Text)
    → pending id (without t ids) ≡ (if text_eq t id then false else pending id ids)
unfolding pending without
pending-without t id [] = ground arith
pending-without t id (p ∷ ps) =
    ground (arith, pending-without t id ps, text_eq_iff t id, text_eq_iff p id, text_eq_iff p t)

-- The pending ids are those that a message may answer.
abbrev Tracks : List Text → List Message → Type 0
Tracks ids earlier = (id : Text) → (pending id ids ≡ true) ↔ Awaits earlier id

Tracks-other :
    (ids : List Text) (earlier : List Message) (m : Message)
    → (m.role ≡ system) ⊎ (m.role ≡ user)
    → Tracks ids earlier
    → Tracks ids (m ∷ earlier)
Tracks-other ids earlier m (inl e) tracks id = rw e (tracks id)
Tracks-other ids earlier m (inr e) tracks id = rw e (tracks id)

Tracks-assistant :
    (earlier : List Message) (m : Message) → m.role ≡ assistant → Tracks m.tool_calls (m ∷ earlier)
Tracks-assistant earlier m e id = rw e ((λ h. h), (λ h. h))

Tracks-tool :
    (ids : List Text) (earlier : List Message) (m : Message)
    → m.role ≡ tool
    → Tracks ids earlier
    → Tracks (without m.tool_call_id ids) (m ∷ earlier)
Tracks-tool ids earlier m e tracks id =
    rw (e, pending-without m.tool_call_id id ids) (ground (arith, tracks id))

sanitize_from-Answered :
    (ids : List Text) (earlier ms : List Message)
    → Tracks ids earlier
    → Answered earlier (sanitize_from ids ms)
unfolding sanitize_from
sanitize_from-Answered ids earlier [] tracks = tt
sanitize_from-Answered ids earlier (m ∷ ms) tracks = elim (Role-cases m.role) [
  | inl e ↦
      let rest =
        sanitize_from-Answered ids (m ∷ earlier) ms (Tracks-other ids earlier m (inl e) tracks) in
      rw e (rw e tt, rest)
  | inr (inl e) ↦
      let rest =
        sanitize_from-Answered ids (m ∷ earlier) ms (Tracks-other ids earlier m (inr e) tracks) in
      rw e (rw e tt, rest)
  | inr (inr (inl e)) ↦
      let rest =
        sanitize_from-Answered m.tool_calls (m ∷ earlier) ms (Tracks-assistant earlier m e) in
      rw e (rw e tt, rest)
  | inr (inr (inr e)) ↦
      let kept =
        sanitize_from-Answered (without m.tool_call_id ids) (m ∷ earlier) ms
          (Tracks-tool ids earlier m e tracks) in
      let dropped = sanitize_from-Answered ids earlier ms tracks in
      elim (Bool-cases (pending m.tool_call_id ids)) [
        | inl p ↦ rw (e, p) (rw e ((tracks m.tool_call_id).0 p), kept)
        | inr p ↦ rw (e, p) dropped
      ]
]

sanitize_from-unchanged :
    (ids : List Text) (earlier ms : List Message)
    → Tracks ids earlier
    → Answered earlier ms
    → sanitize_from ids ms ≡ ms
unfolding sanitize_from
sanitize_from-unchanged ids earlier [] tracks h = refl
sanitize_from-unchanged ids earlier (m ∷ ms) tracks h = elim (Role-cases m.role) [
  | inl e ↦ ground (
    arith,
    sanitize_from-unchanged ids (m ∷ earlier) ms (Tracks-other ids earlier m (inl e) tracks) h.1,
  )
  | inr (inl e) ↦ ground (
    arith,
    sanitize_from-unchanged ids (m ∷ earlier) ms (Tracks-other ids earlier m (inr e) tracks) h.1,
  )
  | inr (inr (inl e)) ↦ ground (
    arith,
    sanitize_from-unchanged m.tool_calls (m ∷ earlier) ms (Tracks-assistant earlier m e) h.1,
  )
  | inr (inr (inr e)) ↦
      let awaited : Awaits earlier m.tool_call_id = rw e at h.0 in
      let is_pending : pending m.tool_call_id ids ≡ true = (tracks m.tool_call_id).1 awaited in
      ground (
        arith,
        sanitize_from-unchanged (without m.tool_call_id ids) (m ∷ earlier) ms
            (Tracks-tool ids earlier m e tracks) h.1,
      )
]

Tracks-nil : Tracks [] []
unfolding pending
Tracks-nil id = ((λ h. ground arith), (λ h. absurd h))

-- In a sanitised history each tool message answers a call of the newest assistant message before it,
-- one that no tool message in between has answered.
pub sanitize_history-Answered : (messages : List Message) → Answered [] (sanitize_history messages)
unfolding sanitize_history
sanitize_history-Answered messages = sanitize_from-Answered [] [] messages Tracks-nil

-- A history in which each tool message answers such a call is left as it is.
pub sanitize_history-unchanged :
    (messages : List Message) → Answered [] messages → sanitize_history messages ≡ messages
unfolding sanitize_history
sanitize_history-unchanged messages h = sanitize_from-unchanged [] [] messages Tracks-nil h

-- The messages that are no tool results.
unfoldable pub spoken : List Message → List Message
spoken [] = []
spoken (m ∷ ms) = let rest = spoken ms in elim m.role [ tool ↦ rest | _ ↦ m ∷ rest ]

spoken-sanitize_from :
    (ids : List Text) (ms : List Message) → spoken (sanitize_from ids ms) ≡ spoken ms
unfolding spoken sanitize_from
spoken-sanitize_from ids [] = refl
spoken-sanitize_from ids (m ∷ ms) = ground (
  arith,
  spoken-sanitize_from ids ms,
  spoken-sanitize_from m.tool_calls ms,
  spoken-sanitize_from (without m.tool_call_id ids) ms,
)

-- Sanitising keeps every message that is no tool message, in order.
spoken-sanitize_history :
    (messages : List Message) → spoken (sanitize_history messages) ≡ spoken messages
unfolding sanitize_history
spoken-sanitize_history messages = spoken-sanitize_from [] messages
