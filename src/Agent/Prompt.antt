-- ===== src/Agent/Prompt.antt =====
-- internal/agent/main/prompt.go: the prompts. `base` is the text of BaseSystemPrompt, and
-- `local_time` prints a positive Unix time in the process's time zone.
use miss_raspberry_agent.Prelude.{
  if◌then◌else◌, ℤ, pos, leb_ℤ, ◌==ℤ◌, ℕ, ◌+◌, not, ◌&&◌, List, [], ◌∷◌, ◌++◌, format_nat,
  format_int, Text, codes, is_empty, trim_space,
}
use miss_raspberry_agent.Todo.{Item}

-- SystemPrompt
unfoldable pub system_prompt : Text → Text → Text
system_prompt base custom = if is_empty (trim_space custom) then base else custom

module _ (local_time : ℤ → Text) where
  -- formatTime
  unfoldable pub format_time : ℤ → Text
  format_time unix = if leb_ℤ unix (pos 0) then codes "-" else local_time unix

  unfoldable pub context_part : Item → Text
  context_part item = if is_empty item.context then [] else codes " 上下文：" ++ item.context

  unfoldable pub target_part : Item → Text
  target_part item =
      if not (is_empty item.target_type) && not (item.target_id ==ℤ pos 0)
      then codes " 回复目标：" ++ item.target_type ++ b'/' ∷ format_int item.target_id
      else []

  -- One line of BuildActivationPrompt; `n` is the item's number.
  unfoldable pub item_line : ℕ → Item → Text
  unfolding format_time context_part target_part
  item_line n item =
      format_nat n
      ++ codes ". id="
      ++ item.id
      ++ codes " 内容："
      ++ item.content
      ++ codes " 来源："
      ++ item.source
      ++ context_part item
      ++ target_part item
      ++ codes " 时间："
      ++ format_time item.created_at
      ++ codes "\n"

  unfoldable pub item_lines : ℕ → List Item → Text
  unfolding item_line
  item_lines n [] = []
  item_lines n (item ∷ items) = item_line n item ++ item_lines (n + 1) items

  -- BuildActivationPrompt
  unfoldable pub build_activation_prompt : List Item → Text
  unfolding item_lines
  build_activation_prompt items =
      codes "请处理当前待办列表中的全部事项。每条待办都来自需要立即处理的消息，包含消息内容、来源和时间。\n"
      ++ codes "回复消息请用 qq_message_sender 发到对应目标；处理完成后用 todo_list 的 complete 操作删除该项。\n\n"
      ++ elim items [
        | [] ↦ codes "当前待办列表：（空）\n"
        | first ∷ others ↦ codes "当前待办列表：\n" ++ item_lines 1 (first ∷ others) ++ codes "\n请开始处理。"
      ]
