-- ===== src/Napcat/Directory.antt =====
-- internal/adapter/napcat/directory.go: which of the bot's groups each member is in. A map from a member
-- to groups is a Table; a set of group IDs is the list of its elements. The entry order of a table stands for the
-- order in which Go visits the map.
pub mod Members
use miss_raspberry_agent.Prelude.{
  if◌then◌else◌, length, ℤ, ltb_ℤ, ◌==ℤ◌, ℕ_eq, ℤ_eq, ℕ, ◌+◌, Bool, true, false, ◌||◌, none, some,
  List, [], ◌∷◌, text_eq_inst,
}
use miss_raspberry_agent.Prelude.Table
use miss_raspberry_agent.Prelude.Table.{Table}
use miss_raspberry_agent.Prelude.Sorting.{sort_by}

pub record MemberDirectory : Type 0 where
  pub friends : List ℤ
  pub member_groups : Table ℤ (List ℤ)
  pub loaded : Bool

-- NewMemberDirectory
abbrev pub new_member_directory : MemberDirectory
new_member_directory = record { friends = []; member_groups = []; loaded = false }

-- Membership in a set or a slice of IDs
unfoldable pub has_id : ℤ → List ℤ → Bool
has_id id [] = false
has_id id (x ∷ xs) = (x ==ℤ id) || has_id id xs

-- `set[id] = struct{}{}`
unfoldable pub insert_id : ℤ → List ℤ → List ℤ
insert_id id set = if has_id id set then set else id ∷ set

unfoldable pub id_set : List ℤ → List ℤ
unfolding insert_id
id_set [] = []
id_set (x ∷ xs) = insert_id x (id_set xs)

-- Replace; a nil map is the empty one.
unfoldable pub replace : List ℤ → Table ℤ (List ℤ) → MemberDirectory → MemberDirectory
unfolding id_set
replace friends member_groups d = record {
  friends = id_set friends;
  member_groups = member_groups;
  loaded = true;
}

-- IsFriend
unfoldable pub is_friend : ℤ → MemberDirectory → Bool
unfolding has_id
is_friend user_id d = has_id user_id d.friends

-- slices.Sort and the sort of BuildMemberGroups
unfoldable pub sort_ids : List ℤ → List ℤ
sort_ids = sort_by ltb_ℤ

-- What a map from IDs to lists has under an ID; a missing key has nil.
unfoldable pub ids_at : ℤ → Table ℤ (List ℤ) → List ℤ
ids_at id m = elim (Table.get id m) [ none ↦ [] | some ids ↦ ids ]

-- Groups, where nil is the empty list
unfoldable pub groups : ℤ → MemberDirectory → List ℤ
unfolding sort_ids ids_at
groups user_id d = sort_ids (ids_at user_id d.member_groups)

-- MemberCount
unfoldable pub member_count : MemberDirectory → ℕ
member_count d = length d.member_groups

-- EdgeCount
unfoldable pub edge_count : MemberDirectory → ℕ
edge_count d = total d.member_groups
  where
    total : Table ℤ (List ℤ) → ℕ
    total [] = 0
    total ((_, gs) ∷ m) = length gs + total m

-- FriendCount
unfoldable pub friend_count : MemberDirectory → ℕ
friend_count d = length d.friends

-- One round of the inner loop of BuildMemberGroups: `set[groupID] = struct{}{}` in the set of `user_id`
unfoldable pub add_member : ℤ → ℤ → Table ℤ (List ℤ) → Table ℤ (List ℤ)
unfolding insert_id ids_at
add_member group_id user_id sets = Table.put user_id (insert_id group_id (ids_at user_id sets)) sets

unfoldable pub add_members : ℤ → List ℤ → Table ℤ (List ℤ) → Table ℤ (List ℤ)
add_members group_id [] sets = sets
add_members group_id (user_id ∷ members) sets =
    add_members group_id members (add_member group_id user_id sets)

-- The first loop of BuildMemberGroups
unfoldable pub add_groups : Table ℤ (List ℤ) → Table ℤ (List ℤ) → Table ℤ (List ℤ)
add_groups [] sets = sets
add_groups ((group_id, members) ∷ group_members) sets =
    add_groups group_members (add_members group_id members sets)

-- The second loop
unfoldable pub sort_sets : Table ℤ (List ℤ) → Table ℤ (List ℤ)
unfolding sort_ids
sort_sets [] = []
sort_sets ((user_id, set) ∷ sets) = (user_id, sort_ids set) ∷ sort_sets sets

-- BuildMemberGroups
unfoldable pub build_member_groups : Table ℤ (List ℤ) → Table ℤ (List ℤ)
build_member_groups group_members = sort_sets (add_groups group_members [])
