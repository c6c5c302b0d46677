-- ===== src/Napcat/Client/Sync.antt =====
-- What a sync leaves in the directory.
use miss_raspberry_agent.Prelude.{
  if◌then◌else◌, Bool-cases, Option-cases, is_some, ℤ, ltb_ℤ, ◌==ℤ◌, ==ℤ_iff, ℕ_eq, ℤ_eq, ◌≡◌, refl,
  ◌∙◌, subst, inl, inr, Bool, true, false, ◌&&◌, ◌||◌, Option, none, some, List, [], ◌∷◌, arith,
  text_eq_inst,
}
use miss_raspberry_agent.Prelude.Sorting.{IsSorted}
use miss_raspberry_agent.Prelude.Table
use miss_raspberry_agent.Prelude.Table.{Table, IsMap, get-put, put-IsMap}
use miss_raspberry_agent.Napcat.Directory.{has_id, ids_at, is_friend, groups, replace}
use miss_raspberry_agent.Napcat.Directory.Members.{replace_lem, empty_index}
use miss_raspberry_agent.Napcat.Client.{
  Client, fetch_members, sync_directory, Round, finished, tick, refresh_directory, group_sync_loop,
}

module _ (members : ℤ → Option (List ℤ)) (g u : ℤ) where
  -- Whether the API names the user among the members of the group.
  abbrev pub named_in : Option (List ℤ) → Bool
  named_in none = false
  named_in (some users) = has_id u users

  fetch_members-IsMap :
      (ids : List ℤ) (m : Table ℤ (List ℤ)) → IsMap m → IsMap (fetch_members members ids m)
  unfolding fetch_members
  fetch_members-IsMap [] m unique = unique
  fetch_members-IsMap (id ∷ ids) m unique = elim (Option-cases (members id)) [
    | inl failed ↦ rw (failed, fetch_members) (fetch_members-IsMap ids m unique)
    | inr (users, found) ↦
        rw (found, fetch_members)
          (fetch_members-IsMap ids (Table.put id users m) (put-IsMap id users m unique))
  ]

  has_id-put :
      (id : ℤ) (users : List ℤ) (m : Table ℤ (List ℤ))
      → has_id u (ids_at g (Table.put id users m))
        ≡ (if id ==ℤ g then has_id u users else has_id u (ids_at g m))
  unfolding ids_at
  has_id-put id users m = ground (arith, get-put id g users m)

  has_id-fetch_members :
      (ids : List ℤ) (m : Table ℤ (List ℤ))
      → has_id u (ids_at g (fetch_members members ids m)) ≡ (
          if has_id g ids && is_some (members g)
          then named_in (members g)
          else has_id u (ids_at g m))
  unfolding fetch_members has_id
  has_id-fetch_members [] m = refl
  has_id-fetch_members (id ∷ ids) m = elim (Option-cases (members id)) [
    | inl failed ↦ elim (Bool-cases (id ==ℤ g)) [
      | inl same ↦
          let at_g : members g ≡ none =
            subst (λ i. members i ≡ none) ((==ℤ_iff id g).0 same) failed in
          ground (arith, has_id-fetch_members ids m)
      | inr other ↦ ground (arith, has_id-fetch_members ids m)
    ]
    | inr (users, found) ↦
        let rest = has_id-fetch_members ids (Table.put id users m) in
        let added = has_id-put id users m in
        elim (Bool-cases (id ==ℤ g)) [
          | inl same ↦
              let at_g : members g ≡ some users =
                subst (λ i. members i ≡ some users) ((==ℤ_iff id g).0 same) found in
              ground (arith, rest, added)
          | inr other ↦ ground (arith, rest, added)
        ]
  ]

  -- A sync that gets the friend list and the group list succeeds, whatever member lists fail. It leaves
  -- a loaded directory in which a friend is a user of the friend list, and a user's groups, in ascending order, are the
  -- listed groups whose member list was got and names the user.
  pub sync_directory_lem :
      (friends ids : List ℤ) (c : Client)
      → (c' : Client) × (sync_directory (some friends) (some ids) members c ≡ (c', true))
        × (c'.directory.loaded ≡ true)
        × (is_friend u c'.directory ≡ has_id u friends)
        × (has_id g (groups u c'.directory) ≡ (has_id g ids && named_in (members g)))
        × IsSorted ltb_ℤ (groups u c'.directory)
  unfolding sync_directory replace
  sync_directory_lem friends ids c =
      let fetched = fetch_members members ids [] in
      let (friend, listed, sorted) =
        replace_lem friends fetched c.directory g u (fetch_members-IsMap ids [] tt) in
      (
        (sync_directory (some friends) (some ids) members c).0,
        refl,
        refl,
        friend,
        listed ∙ ground (arith, has_id-fetch_members ids [], empty_index u g),
        sorted,
      )

-- Whether a round of groupSyncLoop before its end gets the lists that a sync needs.
abbrev synced : List Round → Bool
synced [] = false
synced (finished ∷ rounds) = false
synced (tick friends group_ids members ∷ rounds) =
    (is_some friends && is_some group_ids) || synced rounds

sync_directory_loaded :
    (friends group_ids : Option (List ℤ)) (members : ℤ → Option (List ℤ)) (c : Client)
    → ((sync_directory friends group_ids members c).0.directory.loaded
        ≡ (c.directory.loaded || (is_some friends && is_some group_ids)))
      × ((sync_directory friends group_ids members c).0.outgoing ≡ c.outgoing)
unfolding sync_directory replace
sync_directory_loaded friends group_ids members c = (ground arith, ground arith)

refresh_directory_lem :
    (rounds : List Round) (c : Client)
    → ((refresh_directory rounds c).directory.loaded ≡ (c.directory.loaded || synced rounds))
      × ((refresh_directory rounds c).outgoing ≡ c.outgoing)
unfolding refresh_directory
refresh_directory_lem [] c = (ground arith, refl)
refresh_directory_lem (finished ∷ rounds) c = (ground arith, refl)
refresh_directory_lem (tick friends group_ids members ∷ rounds) c =
    let (here, kept) = sync_directory_loaded friends group_ids members c in
    let (there, later) =
      refresh_directory_lem rounds (sync_directory friends group_ids members c).0 in
    (ground (arith, here, there), later ∙ kept)

-- The directory is loaded after groupSyncLoop if it was before, or if a sync of the loop got its lists;
-- once loaded it stays so. The outgoing queue is not touched.
group_sync_loop_lem :
    (rounds : List Round) (c : Client)
    → ((group_sync_loop rounds c).directory.loaded ≡ (c.directory.loaded || synced rounds))
      × ((group_sync_loop rounds c).outgoing ≡ c.outgoing)
unfolding group_sync_loop
group_sync_loop_lem [] c = (ground arith, refl)
group_sync_loop_lem (finished ∷ rounds) c = (ground arith, refl)
group_sync_loop_lem (tick friends group_ids members ∷ rounds) c =
    let (here, kept) = sync_directory_loaded friends group_ids members c in
    let c' = (sync_directory friends group_ids members c).0 in
    let (there, later) = refresh_directory_lem rounds c' in
    let (again, retried) = group_sync_loop_lem rounds c' in
    (ground (arith, here, there, again), ground (arith, kept, later, retried))
