-- ===== src/Task/Exits.antt =====
-- string_to_task for every text that it may get.
use so_server_and_pipes.Base.{
  ℕ, suc, ◌+◌, ◌≤◌, ◌≡◌, refl, ap, ◌∙◌, ◌≢◌, inl, inr, false, Option, none, some, List, [], ◌∷◌,
  ◌++◌, arith, ◌==◌, length, Bool-cases, Option-cases, get_or-replicate,
}
use so_server_and_pipes.Base.{subst}
use so_server_and_pipes.Fs.Memory.{
  Bytes, IsText, write_bytes, write_bytes-inside, write_bytes-outside,
}
use so_server_and_pipes.Fs.Memory.RoundTrip.{write_bytes-Holds, Holds-tail}
use so_server_and_pipes.Task.{
  joined, string_at, strcpy, field, task_to_string, print_byte, cut, task_size, opcode, box_name,
  pipe_path,
}
use so_server_and_pipes.Task.Scan.{
  is_space, skip_space, word, behind_word, sscanf, Directive, to_string, literal, cleared, parsed,
  no_task, to_parsed, Format, login, response, listing, words, unknown, format_of, fields_of,
  switch_after, switch_on, string_to_task,
}
use so_server_and_pipes.Task.Text.{IsPrinted, print_byte-IsPrinted, cut-IsPrinted, string_at-Holds}

pub length-word : (s : List ℕ) → length (word s) ≤ length s
unfolding word
length-word [] = omega arith
length-word (c ∷ cs) = let ih = length-word cs in ground arith

-- What follows a word is nothing or begins with a space, so that no `|` is found there.
bar_behind_word :
    (s : List ℕ) (ds : List Directive) (m : Bytes)
    → sscanf (literal b'|' ∷ ds) (behind_word s) m ≡ some m
unfolding behind_word sscanf
bar_behind_word [] ds m = refl
bar_behind_word (c ∷ cs) ds m = elim (Bool-cases (is_space c)) [
  | inl t ↦ let differs : (b'|' == c) ≡ false = ground arith in rw (t, differs)
  | inr f ↦ rw f (bar_behind_word cs ds m)
]

-- The task after the word `w` is written from the opcode on.
abbrev pub with_word : Bytes → List ℕ → Bytes
with_word m w = write_bytes m opcode (w ++ 0 ∷ [])

pub with_word-opcode : (m : Bytes) (c : ℕ) (cs : List ℕ) → with_word m (c ∷ cs) opcode ≡ c
with_word-opcode m c cs = write_bytes-inside m opcode ((c ∷ cs) ++ 0 ∷ []) 0 (omega arith)

strcpy-fits :
    (m : Bytes) (w : List ℕ) → length w ≤ 2119 → strcpy task_size m opcode w ≡ some (with_word m w)
unfolding strcpy
strcpy-fits m w fits = ground arith

module _ (c : ℕ) (cs : List ℕ) (visible : is_space c ≡ false) (fits : length (c ∷ cs) ≤ 2119) where
  no_skip : skip_space (c ∷ cs) ≡ c ∷ cs
  unfolding skip_space
  no_skip = rw visible

  all_word : word (c ∷ cs) ≡ c ∷ word cs
  unfolding word
  all_word = rw visible

  first_word : word (skip_space (c ∷ cs)) ≡ c ∷ word cs
  first_word = ap word no_skip ∙ all_word

  -- Every format begins with `%s|`, and nothing behind that is reached.
  pub sscanf-eq :
      (ds : List Directive) (m : Bytes)
      → sscanf (to_string opcode ∷ literal b'|' ∷ ds) (c ∷ cs) m ≡ some (with_word m (c ∷ word cs))
  unfolding sscanf
  sscanf-eq ds m =
      let short : length (c ∷ word cs) ≤ 2119 = omega (arith, length-word cs) in
      ground (
        arith,
        first_word,
        strcpy-fits m (c ∷ word cs) short,
        bar_behind_word (skip_space (c ∷ cs)) ds (with_word m (c ∷ word cs)),
      )

  switch_on-eq :
      (f : Format) (m : Bytes)
      → f ≢ unknown
      → switch_on f (c ∷ cs) m ≡ parsed (with_word m (c ∷ word cs))
  unfolding switch_on
  switch_on-eq login m ne = ap to_parsed (sscanf-eq (fields_of login) m)
  switch_on-eq response m ne = ap to_parsed (sscanf-eq (fields_of response) m)
  switch_on-eq listing m ne = ap to_parsed (sscanf-eq (fields_of listing) m)
  switch_on-eq words m ne = ap to_parsed (sscanf-eq (fields_of words) m)
  switch_on-eq unknown m ne = absurd (ne refl)

  -- The opcode that is switched on is the first byte.
  string_to_task-switch :
      (junk : Bytes)
      → string_to_task (c ∷ cs) junk
        ≡ switch_on (format_of c) (c ∷ cs) (with_word (cleared junk) (c ∷ word cs))
  unfolding string_to_task switch_after
  string_to_task-switch junk =
      ap (switch_after (c ∷ cs)) (sscanf-eq [] (cleared junk))
      ∙ (ap (λ op. switch_on (format_of op) (c ∷ cs) (with_word (cleared junk) (c ∷ word cs)))
          (with_word-opcode (cleared junk) c (word cs)))

-- The task in which all is zero but what is written from the opcode on.
abbrev pub read_as : Bytes → List ℕ → Bytes
read_as junk w = with_word (with_word (cleared junk) w) w

cleared-pipe_path : (junk : Bytes) → cleared junk pipe_path ≡ 0
unfolding cleared write_bytes
cleared-pipe_path junk = get_or-replicate 256 0 0

read_as-pipe_path : (junk : Bytes) (w : List ℕ) → read_as junk w pipe_path ≡ 0
read_as-pipe_path junk w =
    write_bytes-outside _ opcode (w ++ 0 ∷ []) pipe_path (inl (omega arith))
    ∙ write_bytes-outside _ opcode (w ++ 0 ∷ []) pipe_path (inl (omega arith))
    ∙ cleared-pipe_path junk

empty_at : (m : Bytes) (a k : ℕ) → m a ≡ 0 → string_at m a (suc k) ≡ some []
unfolding string_at
empty_at m a k nul = elim (Option-cases (string_at m (a + 1) k)) [
  | inl e ↦ rw (e, nul)
  | inr (s, e) ↦ rw (e, nul)
]

word-IsText : (s : List ℕ) → IsText s → IsText (word s)
unfolding word
word-IsText [] text = tt
word-IsText (c ∷ cs) (some_char, text) = elim (Bool-cases (is_space c)) [
  | inl t ↦ rw t tt
  | inr f ↦ rw f (some_char, word-IsText cs text)
]

-- A text that begins with one of the digits that the programs print as an opcode is no request:
-- string_to_task ends the process.
pub string_to_task-IsPrinted :
    (s : List ℕ) (junk : Bytes) → IsPrinted s → length s ≤ 1023 → string_to_task s junk ≡ no_task
unfolding switch_on
string_to_task-IsPrinted s junk h fits =
    let no_format : format_of h.first ≡ unknown = ground (arith, h.digit) in
    let visible : is_space h.first ≡ false = ground (arith, h.digit) in
    let short : length (h.first ∷ h.others) ≤ 2119 = omega (arith, fits, ap length h.parts) in
    ap (λ z. string_to_task z junk) h.parts
    ∙ string_to_task-switch h.first h.others visible short junk
    ∙ ap
        (λ f. switch_on f (h.first ∷ h.others) (with_word (cleared junk) (h.first ∷ word h.others)))
        no_format

joined-IsPrinted :
    (op : ℕ) (p b : Option (List ℕ)) (s : List ℕ)
    → joined op p b ≡ some s
    → IsPrinted s × (length s ≤ 1023)
unfolding joined
joined-IsPrinted op none b s e = cc
joined-IsPrinted op (some p) none s e = cc
joined-IsPrinted op (some p) (some b) s e =
    let same : cut (print_byte op ++ (b'|' ∷ p ++ (b'|' ∷ b))) ≡ s = cc in
    subst (λ z. IsPrinted z × (length z ≤ 1023)) same
      (cut-IsPrinted (print_byte op) (b'|' ∷ p ++ (b'|' ∷ b)) (print_byte-IsPrinted op))

-- No task survives the way from one program to the other: whatever the fields of a task are, what
-- task_to_string prints makes string_to_task end the process.
pub string_to_task-task_to_string :
    (m junk : Bytes) (s : List ℕ) → task_to_string m ≡ some s → string_to_task s junk ≡ no_task
unfolding task_to_string
string_to_task-task_to_string m junk s printed =
    let (h, fits) = joined-IsPrinted (m opcode) (field m pipe_path) (field m box_name) s printed in
    string_to_task-IsPrinted s junk h fits

-- A text of at most 2119 bytes, none of them NUL, that begins with the byte of an opcode other than 9
-- and 10, which are white space to %s, is read, but the whole word behind that byte becomes
-- the name of the box, and the path of the client's pipe stays empty.
pub string_to_task-byte :
    (c : ℕ) (cs : List ℕ) (junk : Bytes)
    → is_space c ≡ false
    → format_of c ≢ unknown
    → IsText cs
    → length cs ≤ 2118
    → (m : Bytes) × (string_to_task (c ∷ cs) junk ≡ parsed m)
      × (m opcode ≡ c)
      × (field m pipe_path ≡ some [])
      × (field m box_name ≡ some (word cs))
string_to_task-byte c cs junk visible known text fits =
    let w = c ∷ word cs in
    let m = with_word (cleared junk) w in
    (
      read_as junk w,
      string_to_task-switch c cs visible (omega arith) junk
          ∙ switch_on-eq c cs visible (omega arith) (format_of c) m known,
      with_word-opcode m c (word cs),
      empty_at (read_as junk w) pipe_path 2375 (read_as-pipe_path junk w),
      string_at-Holds (read_as junk w) box_name (word cs) 2119 (word-IsText cs text)
          (omega (arith, length-word cs))
          (Holds-tail (read_as junk w) opcode c (word cs ++ 0 ∷ [])
            (write_bytes-Holds m opcode (w ++ 0 ∷ []))),
    )
