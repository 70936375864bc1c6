-- ===== src/Task/Scan.antt =====
-- sscanf, as far as string_to_task uses it, and string_to_task.
use so_server_and_pipes.Base.{
  ℕ, zero, suc, ◌+◌, ◌-◌, ◌*◌, Bool, ◌&&◌, ◌||◌, Option, none, some, List, [], ◌∷◌, leb, ◌==◌,
  if◌then◌else◌, replicate, ℤ, pos, negsuc,
}
use so_server_and_pipes.Fs.Memory.{Bytes, write_bytes, store_int}
use so_server_and_pipes.Os.{Prog, done, exited, outside, exit_failure}
use so_server_and_pipes.Task.{
  strcpy, pipe_path, opcode, box_name, message, error, return_value, task_size, pipe_path_max_size,
  message_max_size, max_box_name,
}

-- `isspace`
abbrev pub is_space : ℕ → Bool
is_space c = c == 32 || (leb 9 c && leb c 13)

unfoldable pub skip_space : List ℕ → List ℕ
skip_space [] = []
skip_space (c ∷ cs) = let rest = skip_space cs in if is_space c then rest else c ∷ cs

-- The longest beginning without a space, and what follows it.
unfoldable pub word : List ℕ → List ℕ
word [] = []
word (c ∷ cs) = let rest = word cs in if is_space c then [] else c ∷ rest

unfoldable pub behind_word : List ℕ → List ℕ
behind_word [] = []
behind_word (c ∷ cs) = let rest = behind_word cs in if is_space c then c ∷ cs else rest

abbrev pub is_digit : ℕ → Bool
is_digit c = leb 48 c && leb c 57

-- The value of the leading digits, and what follows them.
unfoldable pub number : ℕ → List ℕ → ℕ × List ℕ
number n [] = (n, [])
number n (c ∷ cs) =
    let rest = number (10 * n + (c - 48)) cs in if is_digit c then rest else (n, c ∷ cs)

-- The digits behind a sign; `none` if there are none.
unfoldable pub unsigned : List ℕ → Option (ℕ × List ℕ)
unfolding number
unsigned [] = none
unsigned (c ∷ cs) = if is_digit c then some (number 0 (c ∷ cs)) else none

abbrev pub negate : ℕ → ℤ
negate zero = pos 0
negate (suc n) = negsuc n

-- `%d` at the end of the spaces.
unfoldable pub scan_int : List ℕ → Option (ℤ × List ℕ)
unfolding unsigned
scan_int [] = none
scan_int (c ∷ cs) =
    if c == b'-'
    then elim (unsigned cs) [ none ↦ none | some (n, r) ↦ some (negate n, r) ]
    else elim (unsigned (if c == b'+' then cs else c ∷ cs)) [
      | none ↦ none
      | some (n, r) ↦ some (pos n, r)
    ]

-- The parts of a format: `%s` and `%d`, with where the value goes, and a character.
pub data Directive : Type 0 where
  to_string : ℕ → Directive
  to_int : ℕ → Directive
  literal : ℕ → Directive

-- `sscanf(s, format, ...)` with all pointers into the task `m`; it ends at the first part that fits
-- nothing. `none` says that it writes behind the task.
unfoldable pub sscanf : List Directive → List ℕ → Bytes → Option Bytes
unfolding skip_space word behind_word strcpy scan_int store_int
sscanf [] s m = some m
sscanf (to_string a ∷ ds) s m = elim (word (skip_space s)) [
  | [] ↦ some m
  | c ∷ cs ↦ elim (strcpy task_size m a (c ∷ cs)) [
    | none ↦ none
    | some m' ↦ sscanf ds (behind_word (skip_space s)) m'
  ]
]
sscanf (to_int a ∷ ds) s m = elim (scan_int (skip_space s)) [
  | none ↦ some m
  | some (v, rest) ↦ sscanf ds rest (store_int m a v)
]
sscanf (literal c ∷ ds) [] m = some m
sscanf (literal c ∷ ds) (d ∷ s) m = let rest = sscanf ds s m in if c == d then rest else some m

-- The four calls of memset.
unfoldable pub cleared : Bytes → Bytes
unfolding write_bytes
cleared m =
    let m₁ = write_bytes m pipe_path (replicate pipe_path_max_size 0) in
    let m₂ = write_bytes m₁ box_name (replicate max_box_name 0) in
    let m₃ = write_bytes m₂ error (replicate message_max_size 0) in
    write_bytes m₃ message (replicate message_max_size 0)

-- How `string_to_task` ends: with a task; by exit(EXIT_FAILURE); or behind the end of the task.
pub data Parsed : Type 0 where
  parsed : Bytes → Parsed
  no_task : Parsed
  overrun : Parsed

abbrev pub to_parsed : Option Bytes → Parsed
to_parsed none = overrun
to_parsed (some m) = parsed m

-- The cases of the switch by their formats.
pub data Format : Type 0 where
  login response listing words unknown : Format

-- The cases of the switch.
abbrev pub format_of : ℕ → Format
format_of op =
    if op == 1 || op == 2 || op == 3 || op == 5
    then login
    else if op == 4 || op == 6
    then response
    else if op == 7
    then listing
    else if op == 9 || op == 10
    then words
    else unknown

abbrev pub fields_of : Format → List Directive
fields_of login = to_string pipe_path ∷ literal b'|' ∷ to_string box_name ∷ []
fields_of response = to_int return_value ∷ literal b'|' ∷ to_string message ∷ []
fields_of listing = to_string pipe_path ∷ []
fields_of words = to_string message ∷ []
fields_of unknown = []

abbrev pub directives : Format → List Directive
directives f = to_string opcode ∷ literal b'|' ∷ fields_of f

-- The switch, and the call of sscanf in the case that it takes.
unfoldable pub switch_on : Format → List ℕ → Bytes → Parsed
unfolding sscanf
switch_on unknown s m = no_task
switch_on login s m = to_parsed (sscanf (directives login) s m)
switch_on response s m = to_parsed (sscanf (directives response) s m)
switch_on listing s m = to_parsed (sscanf (directives listing) s m)
switch_on words s m = to_parsed (sscanf (directives words) s m)

-- What follows the first call of sscanf.
unfoldable pub switch_after : List ℕ → Option Bytes → Parsed
unfolding switch_on
switch_after building none = overrun
switch_after building (some m) = switch_on (format_of (m opcode)) building m

-- `string_to_task`; the local variable `builder` begins with any contents `junk`.
unfoldable pub string_to_task : List ℕ → Bytes → Parsed
unfolding sscanf cleared switch_after
string_to_task building junk =
    switch_after building (sscanf (to_string opcode ∷ literal b'|' ∷ []) building (cleared junk))

-- The task that `string_to_task` returns, if it does.
abbrev pub need_task : {S : Type 0} → Parsed → Prog S Bytes
need_task (parsed m) s = done m s
need_task no_task s = exited exit_failure s
need_task overrun s = outside s
