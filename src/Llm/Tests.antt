-- ===== src/Llm/Tests.antt =====
-- The patch of a body with the answer of a tool that has no content.
use miss_raspberry_agent.Prelude.{
  ◌≡◌, refl, false, Option, some, [], Text, codes, text_eq, Result, ok,
}
use miss_raspberry_agent.Llm.{
  string, array, object, Elements, no_elements, element, Members, no_members, member, get_member,
  patch_missing_content, patch_messages, patch_message, patch_object, patch_role, add_content,
  put_member,
}
use miss_raspberry_agent.Llm.Strict.{Patched, patch_missing_content_lem}

abbrev tool_messages : Elements
tool_messages =
    element (object (member (codes "role") (string (codes "tool")) no_members)) no_elements

abbrev tool_payload : Members
tool_payload = member (codes "messages") (array tool_messages) no_members

tool_messages_found : get_member (codes "messages") tool_payload ≡ some (array tool_messages)
unfolding get_member text_eq
tool_messages_found = refl

-- The patched message has an empty content.
tool_patched :
    patch_messages tool_messages
    ≡ element
        (object (
          member
            (codes "role")
            (string (codes "tool"))
            (member (codes "content") (string []) no_members)))
        no_elements
unfolding patch_messages patch_message patch_object patch_role add_content get_member put_member
    text_eq
tool_patched = refl

abbrev decode_tool : Text → Result (Unit {0}) (Option Members)
decode_tool raw_body = ok (some tool_payload)

abbrev encode_empty : Option Members → Result (Unit {0}) Text
encode_empty payload = ok (codes "{}")

patch_missing_content_lem_example :
    (payload' : Members) × (messages' : Elements) × (patch_missing_content decode_tool encode_empty
        (codes "{}")
      ≡ encode_empty (some payload'))
    × (get_member (codes "messages") payload' ≡ some (array messages'))
    × Patched tool_messages messages'
    × ((key : Text)
        → text_eq (codes "messages") key ≡ false
        → get_member key payload' ≡ get_member key tool_payload)
patch_missing_content_lem_example =
    patch_missing_content_lem decode_tool encode_empty (codes "{}") tool_payload tool_messages refl
      tool_messages_found
