-- ===== src/Task.antt =====
-- utils/lib.h: `task` as the bytes of its struct, string_to_task, and the two ways in which the
-- programs print a task (manager/manager.c, publisher/pub.c, subscriber/sub.c; mbroker/mbroker.c).
pub mod Scan
pub mod Text
pub mod Exits
pub mod Request
mod Tests
use so_server_and_pipes.Base.{
  ℕ, zero, suc, ◌+◌, ◌-◌, ◌*◌, ◌/◌, ◌%◌, ◌^◌, ◌≤◌, ◌<◌, ◌≡◌, refl, sym, ap, ◌∙◌, ◌≢◌, ◌⊎◌, inl, inr,
  Bool, true, false, not, ◌&&◌, ◌||◌, Option, none, some, List, [], ◌∷◌, ◌++◌, arith, ltb, leb,
  ◌==◌, if◌then◌else◌, length, get_or, take, replicate, update, ℤ, pos, negsuc, minus_one,
  is_minus_one, int_of_size, ssize_of_size, find_below, find_from, Finds, IsFirst, find_below-Finds,
  find_from-Finds, find_from-first, find_from-none, Bool-cases, Option-cases, tests, ==→eq, ==→ne,
  eq→==, ne→==, ltb→lt, ltb→le, lt→ltb, le→ltb, length-append, length-replicate, length-take,
  take-length, get_or-append_left, get_or-append_right, get_or-replicate, IsInt, signed32,
  unsigned32, signed32-unsigned32, int_of_size-pos, ssize_of_size-pos, update_self, update-ne, min,
}
use so_server_and_pipes.Fs.Memory.{Bytes, write_bytes, store_int, load_int}

-- The offsets in `task`, in the layout of a 64-bit machine.
abbrev pub pipe_path : ℕ
pipe_path = 0

abbrev pub opcode : ℕ
opcode = 256

abbrev pub box_name : ℕ
box_name = 257

abbrev pub message : ℕ
message = 289

abbrev pub error : ℕ
error = 1328

abbrev pub return_value : ℕ
return_value = 2352

-- `sizeof(task)`
abbrev pub task_size : ℕ
task_size = 2376

abbrev pub pipe_path_max_size : ℕ
pipe_path_max_size = 256

abbrev pub message_max_size : ℕ
message_max_size = 1024

abbrev pub max_box_name : ℕ
max_box_name = 32

-- The string at address `a`, the `k` bytes behind which are readable; `none` if no NUL ends it.
unfoldable pub string_at : Bytes → ℕ → ℕ → Option (List ℕ)
string_at m a zero = none
string_at m a (suc k) = elim (string_at m (a + 1) k) [
  | none ↦ if m a == 0 then some [] else none
  | some s ↦ if m a == 0 then some [] else some (m a ∷ s)
]

-- The string in a field of a task.
abbrev pub field : Bytes → ℕ → Option (List ℕ)
field m a = string_at m a (task_size - a)

-- `strcpy(&m[a], s)`, where `m` has `size` bytes; `none` if it writes behind them.
unfoldable pub strcpy : ℕ → Bytes → ℕ → List ℕ → Option Bytes
unfolding write_bytes
strcpy size m a s =
    let m' = write_bytes m a (s ++ 0 ∷ []) in if leb (a + length s + 1) size then some m' else none

-- `%d` and `%hhu` print the decimal digits of a number; `k` rounds are enough below `10 ^ k`.
unfoldable pub digits : ℕ → ℕ → List ℕ → List ℕ
digits zero n out = out
digits (suc k) n out =
    let out' = (48 + n % 10) ∷ out in
    let more = digits k (n / 10) out' in if ltb n 10 then out' else more

-- `%hhu` of a byte, and `%d` of an `int`.
unfoldable pub print_byte : ℕ → List ℕ
unfolding digits
print_byte n = digits 3 n []

unfoldable pub print_int : ℤ → List ℕ
unfolding digits
print_int (pos n) = digits 10 n []
print_int (negsuc n) = b'-' ∷ digits 10 (n + 1) []

-- `snprintf(result, MESSAGE_MAX_SIZE, ...)` of a text.
abbrev pub cut : List ℕ → List ℕ
cut s = take (message_max_size - 1) s

-- `%hhu|%s|%s` of an opcode and two strings, if they are strings.
unfoldable pub joined : ℕ → Option (List ℕ) → Option (List ℕ) → Option (List ℕ)
unfolding print_byte
joined op none b = none
joined op (some p) none = none
joined op (some p) (some b) = some (cut (print_byte op ++ (b'|' ∷ p ++ (b'|' ∷ b))))

-- `task_to_string`; the result is `none` if a field has no NUL in the task.
unfoldable pub task_to_string : Bytes → Option (List ℕ)
unfolding joined string_at
task_to_string m = joined (m opcode) (field m pipe_path) (field m box_name)

-- The buffers for a request of the clients, `sizeof(uint8_t) + 2 + PIPE_PATH_MAX_SIZE + MAX_BOX_NAME`.
abbrev pub request_buffer_size : ℕ
request_buffer_size = 291

-- `strcpy(pub_request, task_to_string(task_op))`, if the buffer is large enough.
abbrev pub fitting : Option (List ℕ) → Option (List ℕ)
fitting none = none
fitting (some text) = if leb (length text + 1) request_buffer_size then some text else none

unfoldable pub request_text : Option Bytes → Option (List ℕ)
unfolding task_to_string
request_text none = none
request_text (some m) = fitting (task_to_string m)
