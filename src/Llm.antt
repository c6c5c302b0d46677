-- ===== src/Llm.antt =====
-- internal/llm/wrapper.go: the patch of a request's body for providers that want each content field.
pub mod Strict
mod Tests
use miss_raspberry_agent.Prelude.{
  if◌then◌else◌, Bool, true, false, not, Option, none, some, [], Text, codes, text_eq, Result, ok,
  err,
}

-- What json.Unmarshal makes of a body. A number is its text, and an object's members stand in any order.
mutual
  pub data Json : Type 0 where
    null : Json
    bool : Bool → Json
    number : Text → Json
    string : Text → Json
    array : Elements → Json
    object : Members → Json

  pub data Elements : Type 0 where
    no_elements : Elements
    element : Json → Elements → Elements

  pub data Members : Type 0 where
    no_members : Members
    member : Text → Json → Members → Members

unfoldable pub get_member : Text → Members → Option Json
get_member key no_members = none
get_member key (member k v rest) =
    let later = get_member key rest in if text_eq k key then some v else later

unfoldable pub put_member : Text → Json → Members → Members
put_member key v no_members = member key v no_members
put_member key v (member k u rest) =
    let later = put_member key v rest in if text_eq k key then member k v rest else member k u later

abbrev pub has_member : Text → Members → Bool
has_member key members = elim (get_member key members) [ none ↦ false | some _ ↦ true ]

-- `if _, hasContent := msg["content"]; !hasContent { msg["content"] = "" }`
unfoldable pub add_content : Members → Members
add_content msg =
    if has_member (codes "content") msg then msg else put_member (codes "content") (string []) msg

-- The switch of patchMissingContent on a message's role
unfoldable pub patch_role : Option Json → Members → Members
patch_role (some (string role)) msg =
    if text_eq role (codes "assistant")
    then (if not (has_member (codes "tool_calls") msg) then msg else add_content msg)
    else if text_eq role (codes "tool")
    then add_content msg
    else msg
patch_role _ msg = msg

-- The body of the loop
unfoldable pub patch_object : Members → Members
patch_object msg = patch_role (get_member (codes "role") msg) msg

unfoldable pub patch_message : Json → Json
patch_message (object msg) = object (patch_object msg)
patch_message m = m

-- The loop; the maps of the messages are changed in place.
unfoldable pub patch_messages : Elements → Elements
patch_messages no_elements = no_elements
patch_messages (element m rest) = element (patch_message m) (patch_messages rest)

unfoldable pub patch_payload : Members → Members
patch_payload payload = elim (get_member (codes "messages") payload) [
  | some (array messages) ↦ put_member (codes "messages") (array (patch_messages messages)) payload
  | _ ↦ payload
]

-- patchMissingContent: `decode` is json.Unmarshal into a map, and `encode` json.Marshal of it. The body
-- "null" is decoded to a nil map, which is none.
unfoldable pub patch_missing_content :
    {E : Type 0}
    → (Text → Result E (Option Members))
    → (Option Members → Result E Text)
    → Text
    → Result E Text
patch_missing_content decode encode raw_body = elim (decode raw_body) [
  | err e ↦ err e
  | ok payload ↦ encode (elim payload [ none ↦ none | some members ↦ some (patch_payload members) ])
]
