-- ===== src/Moderator/Input.antt =====
-- readComment of cmd/moderator/main.go, and the command from its arguments on.
use miss_raspberry_agent.Prelude.{List, [], ◌∷◌, Text, Result, ok, err}

pub data InputError (E : Type 0) : Type 0 where
  usage : InputError E
  open_failed read_failed : E → InputError E

-- `stdin` is what reading the standard input gives, and `open_file` what opening and then reading a file
-- does.
module _ {E : Type 0} (stdin : Result E Text) (open_file : Text → Result E (Result E Text)) where
  -- io.ReadAll
  abbrev read_all : Result E Text → Result (InputError E) Text
  read_all (ok raw) = ok raw
  read_all (err e) = err (read_failed e)

  unfoldable pub read_comment : List Text → Result (InputError E) Text
  unfolding read_all
  read_comment [] = read_all stdin
  read_comment (path ∷ []) = elim (open_file path) [
    | err e ↦ err (open_failed e)
    | ok contents ↦ read_all contents
  ]
  read_comment (path ∷ other ∷ args) = err usage
