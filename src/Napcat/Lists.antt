-- ===== src/Napcat/Lists.antt =====
-- The lists of friends, groups and members: the parsers of internal/adapter/napcat/directory.go, and
-- SyncDirectory by its calls to the bot.
use miss_raspberry_agent.Prelude.{
  if◌then◌else◌, ℤ, pos, ◌==ℤ◌, ℕ_eq, ℤ_eq, ◌≡◌, Bool, false, not, Option, none, some, List, [],
  ◌∷◌, map, arith, codes, text_eq_inst,
}
use miss_raspberry_agent.Napcat.Client.{Client, sync_directory}
use miss_raspberry_agent.Napcat.Gjson.{Gjson, number, ActionCall, ApiResponse}

module _ {J : Type 0} (gjson : Gjson J) where
  -- ParseGroupList
  unfoldable pub parse_group_list : J → List ℤ
  parse_group_list body =
      map (λ item. gjson.int (gjson.get (codes "group_id") item)) (gjson.array body)

  -- ParseGroupMemberList
  unfoldable pub parse_group_member_list : J → List ℤ
  parse_group_member_list body =
      map (λ item. gjson.int (gjson.get (codes "user_id") item)) (gjson.array body)

  -- ParseFriendList
  unfoldable pub parse_friend_list : J → List ℤ
  parse_friend_list body =
      map (λ item. gjson.int (gjson.get (codes "user_id") item)) (gjson.array body)

  -- The answer of a call, if it has succeeded, as a parser reads it
  unfoldable pub parsed : (J → List ℤ) → ApiResponse J → Option (List ℤ)
  parsed parser rsp = if not (rsp.ret_code ==ℤ pos 0) then none else some (parser rsp.data_of)

  -- SyncDirectory, for a bot that is connected, by its calls; none is no bot.
  unfoldable pub sync_with_bot : Option (ActionCall → ApiResponse J) → Client → Client × Bool
  unfolding parsed
  sync_with_bot none c = (c, false)
  sync_with_bot (some bot) c =
      sync_directory
        (parsed parse_friend_list (bot (record { action = codes "get_friend_list"; params = [] })))
        (parsed parse_group_list (bot (record { action = codes "get_group_list"; params = [] })))
        (λ group_id. parsed parse_group_member_list (
          bot (record {
            action = codes "get_group_member_list";
            params = (codes "group_id", number group_id) ∷ [];
          })))
        c

  -- A sync that fails changes nothing.
  sync_with_bot_fails :
      (bot : ActionCall → ApiResponse J) (c : Client)
      → (sync_with_bot (some bot) c).1 ≡ false
      → (sync_with_bot (some bot) c).0 ≡ c
  unfolding sync_with_bot sync_directory
  sync_with_bot_fails bot c failed = ground (arith, failed)
