-- ===== src/Napcat/Directory/Members.antt =====
-- The member index is the group lists turned around.
use miss_raspberry_agent.Prelude.{
  ℤ, ltb_ℤ, ◌==ℤ◌, ==ℤ_iff, ℕ_eq, ℤ_eq, ◌≡◌, refl, sym, ap, ◌∙◌, subst, Bool, false, ◌&&◌, ◌||◌,
  List, [], ◌∷◌, arith, text_eq_inst,
}
use miss_raspberry_agent.Prelude.Table
use miss_raspberry_agent.Prelude.Table.{Table, IsMap, get-put}
use miss_raspberry_agent.Prelude.Sorting.{
  sort_by, insert_by, IsSorted, IsWeakOrder, sort_by-IsSorted,
}
use miss_raspberry_agent.Napcat.Directory.{
  MemberDirectory, has_id, insert_id, id_set, is_friend, sort_ids, ids_at, groups, replace,
  add_member, add_members, add_groups, sort_sets, build_member_groups,
}

has_id-insert_by :
    (id x : ℤ) (xs : List ℤ) → has_id id (insert_by ltb_ℤ x xs) ≡ ((x ==ℤ id) || has_id id xs)
unfolding insert_by has_id
has_id-insert_by id x [] = refl
has_id-insert_by id x (y ∷ ys) = ground (arith, has_id-insert_by id x ys)

has_id-sort_ids : (id : ℤ) (xs : List ℤ) → has_id id (sort_ids xs) ≡ has_id id xs
unfolding sort_ids sort_by has_id
has_id-sort_ids id [] = refl
has_id-sort_ids id (x ∷ xs) =
    has_id-insert_by id x (sort_ids xs) ∙ ap (λ b. (x ==ℤ id) || b) (has_id-sort_ids id xs)

has_id-insert_id :
    (id x : ℤ) (xs : List ℤ) → has_id id (insert_id x xs) ≡ ((x ==ℤ id) || has_id id xs)
unfolding insert_id has_id
has_id-insert_id id x xs = ground (arith, ==ℤ_iff x id)

module _ (g u : ℤ) where
  has_id-add_member :
      (h w : ℤ) (sets : Table ℤ (List ℤ))
      → has_id g (ids_at u (add_member h w sets))
        ≡ (((h ==ℤ g) && (w ==ℤ u)) || has_id g (ids_at u sets))
  unfolding ids_at add_member
  has_id-add_member h w sets = ground (
    arith,
    get-put w u (insert_id h (ids_at w sets)) sets,
    has_id-insert_id g h (ids_at w sets),
    ==ℤ_iff w u,
  )

  has_id-add_members :
      (h : ℤ) (members : List ℤ) (sets : Table ℤ (List ℤ))
      → has_id g (ids_at u (add_members h members sets))
        ≡ (((h ==ℤ g) && has_id u members) || has_id g (ids_at u sets))
  unfolding add_members has_id
  has_id-add_members h [] sets = ground arith
  has_id-add_members h (w ∷ members) sets =
      ground (arith, has_id-add_members h members (add_member h w sets), has_id-add_member h w sets)

  abbrev in_groups : Table ℤ (List ℤ) → Bool
  in_groups [] = false
  in_groups ((h, members) ∷ m) = ((h ==ℤ g) && has_id u members) || in_groups m

  has_id-add_groups :
      (m sets : Table ℤ (List ℤ))
      → has_id g (ids_at u (add_groups m sets)) ≡ (in_groups m || has_id g (ids_at u sets))
  unfolding add_groups
  has_id-add_groups [] sets = ground arith
  has_id-add_groups ((h, members) ∷ m) sets =
      ground
        (arith, has_id-add_groups m (add_members h members sets), has_id-add_members h members sets)

  ids_at-sort_sets :
      (sets : Table ℤ (List ℤ)) → ids_at u (sort_sets sets) ≡ sort_ids (ids_at u sets)
  unfolding ids_at sort_sets Table.get sort_ids sort_by
  ids_at-sort_sets [] = refl
  ids_at-sort_sets ((w, set) ∷ sets) = ground (arith, ids_at-sort_sets sets)

  in_groups-absent : (m : Table ℤ (List ℤ)) → Table.has_key g m ≡ false → in_groups m ≡ false
  unfolding Table.has_key
  in_groups-absent [] h = refl
  in_groups-absent ((w, members) ∷ m) h = ground (arith, in_groups-absent m)

  in_groups-ids_at : (m : Table ℤ (List ℤ)) → IsMap m → in_groups m ≡ has_id u (ids_at g m)
  unfolding ids_at Table.get has_id
  in_groups-ids_at [] unique = refl
  in_groups-ids_at ((w, members) ∷ m) unique =
      ground (arith, ==ℤ_iff w g, in_groups-ids_at m unique.1, in_groups-absent m)

ltb_ℤ-IsWeakOrder : IsWeakOrder ltb_ℤ
ltb_ℤ-IsWeakOrder = record { asym = λ a b h. ground arith; trans = λ a b c h k. ground arith }

pub empty_index : (g u : ℤ) → has_id g (ids_at u []) ≡ false
unfolding has_id ids_at Table.get
empty_index g u = refl

-- The index lists a group for a member exactly if the group's member list has the member, and it lists
-- a member's groups in ascending order.
pub build_member_groups_lem :
    (m : Table ℤ (List ℤ)) (g u : ℤ)
    → IsMap m
    → (has_id g (ids_at u (build_member_groups m)) ≡ has_id u (ids_at g m))
      × IsSorted ltb_ℤ (ids_at u (build_member_groups m))
unfolding build_member_groups sort_ids
build_member_groups_lem m g u unique =
    let sorted = ids_at-sort_sets g u (add_groups m []) in
    (
      ap (has_id g) sorted
          ∙ has_id-sort_ids g (ids_at u (add_groups m []))
          ∙ has_id-add_groups g u m []
          ∙ ground (arith, in_groups-ids_at g u m unique, empty_index g u),
      subst (IsSorted ltb_ℤ) (sym sorted) (sort_by-IsSorted ltb_ℤ ltb_ℤ-IsWeakOrder _),
    )

has_id-id_set : (id : ℤ) (xs : List ℤ) → has_id id (id_set xs) ≡ has_id id xs
unfolding id_set has_id
has_id-id_set id [] = refl
has_id-id_set id (x ∷ xs) = ground (arith, has_id-insert_id id x (id_set xs), has_id-id_set id xs)

-- After a directory is replaced by a friend list and the index of some group lists, IsFriend answers
-- whether the list has the user, and Groups lists, in ascending order, the groups whose list does.
pub replace_lem :
    (friends : List ℤ) (m : Table ℤ (List ℤ)) (d : MemberDirectory) (g u : ℤ)
    → IsMap m
    → (is_friend u (replace friends (build_member_groups m) d) ≡ has_id u friends)
      × (has_id g (groups u (replace friends (build_member_groups m) d)) ≡ has_id u (ids_at g m))
      × IsSorted ltb_ℤ (groups u (replace friends (build_member_groups m) d))
unfolding replace is_friend groups sort_ids
replace_lem friends m d g u unique = (
  has_id-id_set u friends,
  has_id-sort_ids g (ids_at u (build_member_groups m)) ∙ (build_member_groups_lem m g u unique).0,
  sort_by-IsSorted ltb_ℤ ltb_ℤ-IsWeakOrder _,
)
