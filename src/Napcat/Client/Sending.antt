-- ===== src/Napcat/Client/Sending.antt =====
-- How a private message is sent.
use miss_raspberry_agent.Prelude.{
  if◌then◌else◌, Bool-cases, ℤ, ◌≡◌, refl, ap, ◌∙◌, inl, inr, Bool, true, false, ◌&&◌, Option, none,
  some, List, [], ◌∷◌, ◌++◌, map, arith, Text,
}
use miss_raspberry_agent.Napcat.Directory.{MemberDirectory, is_friend, groups}
use miss_raspberry_agent.Napcat.Client.{
  Call, private_msg, temporary_msg, call_action, send_private, try_send_to_member_via_groups,
}

-- The ways to reach a user, in the order of trial.
abbrev pub ways : MemberDirectory → ℤ → Text → List Call
ways d user_id content =
    if d.loaded && is_friend user_id d
    then private_msg user_id content ∷ []
    else map (λ group_id. temporary_msg user_id group_id content) (groups user_id d)
      ++ private_msg user_id content ∷ []

module _ (answers : List Call → Call → Bool) where
  -- Each call in turn is made, until one is accepted.
  abbrev pub first_accepted : List Call → List Call → List Call × Bool
  first_accepted [] made = (made, false)
  first_accepted (call ∷ calls) made =
      if answers made call then (call ∷ made, true) else first_accepted calls (call ∷ made)

  module _ (user_id : ℤ) (content : Text) where
    abbrev via : ℤ → List Call → List Call × Bool
    via group_id = call_action answers (temporary_msg user_id group_id content)

    abbrev last_resort : List Call × Option ℤ → List Call × Bool
    last_resort (made, some _) = (made, true)
    last_resort (made, none) = call_action answers (private_msg user_id content) made

    last_resort_lem :
        (r : List Call × Option ℤ)
        → elim r.1 as (λ x. List Call × Bool) [
          | some _ ↦ (r.0, true)
          | none ↦ call_action answers (private_msg user_id content) r.0
        ]
          ≡ last_resort r
    last_resort_lem (made, some _) = refl
    last_resort_lem (made, none) = refl

    module _ (g : ℤ) (gs : List ℤ) (made : List Call) where
      try_send_accepted :
          answers made (temporary_msg user_id g content) ≡ true
          → try_send_to_member_via_groups via (g ∷ gs) made
            ≡ (temporary_msg user_id g content ∷ made, some g)
      unfolding try_send_to_member_via_groups call_action
      try_send_accepted accepted = rw accepted refl

      try_send_refused :
          answers made (temporary_msg user_id g content) ≡ false
          → try_send_to_member_via_groups via (g ∷ gs) made
            ≡ try_send_to_member_via_groups via gs (temporary_msg user_id g content ∷ made)
      unfolding try_send_to_member_via_groups call_action
      try_send_refused refused = rw refused refl

    via_groups :
        (gs : List ℤ) (made : List Call)
        → last_resort (try_send_to_member_via_groups via gs made)
          ≡ first_accepted
              (map (λ group_id. temporary_msg user_id group_id content) gs
                ++ private_msg user_id content ∷ [])
              made
    unfolding try_send_to_member_via_groups call_action
    via_groups [] made = ground arith
    via_groups (g ∷ gs) made = elim (Bool-cases (answers made (temporary_msg user_id g content))) [
      | inl accepted ↦ ap last_resort (try_send_accepted g gs made accepted) ∙ rw accepted refl
      | inr refused ↦
          ap last_resort (try_send_refused g gs made refused)
          ∙ via_groups gs (temporary_msg user_id g content ∷ made)
          ∙ rw refused refl
    ]

    -- sendPrivate tries the ways to reach a user in turn, until one is accepted: a friend of a
    -- loaded directory by a private message, and anyone else through the temporary session of each
    -- shared group, in the order of Groups, and at last by a private message.
    pub send_private_lem :
        (d : MemberDirectory) (made : List Call)
        → send_private answers d user_id content made ≡ first_accepted (ways d user_id content) made
    unfolding send_private
    send_private_lem d made = elim (Bool-cases (d.loaded && is_friend user_id d)) [
      | inl friend ↦ rw friend (ground arith)
      | inr stranger ↦ rw stranger (
          last_resort_lem (try_send_to_member_via_groups via (groups user_id d) made)
          ∙ via_groups (groups user_id d) made)
    ]
