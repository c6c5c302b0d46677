-- ===== src/Messaging/Tests.antt =====
-- Requests to the message service at concrete data.
use miss_raspberry_agent.Prelude.{
  pos, ◌≡◌, refl, true, false, some, [], is_digit, parse_magnitude, parse_int, codes, text_eq,
  is_empty, is_space, trim_space,
}
use miss_raspberry_agent.Messaging.{Request}

abbrev request : Request
request = record {
  platform = codes "qq";
  target_id = codes " 42 ";
  content = codes "hello";
  context = [];
}

on_qq : text_eq request.platform (codes "qq") ≡ true
unfolding text_eq
on_qq = refl

has_content : is_empty (trim_space request.content) ≡ false
unfolding trim_space is_space
has_content = refl

has_target : is_empty (trim_space request.target_id) ≡ false
unfolding trim_space is_space
has_target = refl

target-parsed : parse_int (trim_space request.target_id) ≡ some (pos 42)
unfolding trim_space is_space parse_int parse_magnitude is_digit
target-parsed = refl
