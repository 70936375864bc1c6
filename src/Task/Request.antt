-- ===== src/Task/Request.antt =====
-- The text that a client puts into its buffer for a request.
use so_server_and_pipes.Base.{
  ℕ, zero, suc, ◌+◌, ◌≤◌, ◌≡◌, refl, ap, ◌∙◌, Option, none, some, List, [], ◌∷◌, ◌++◌, arith,
  length, take, length-append,
}
use so_server_and_pipes.Fs.Memory.{Bytes, IsText, write_bytes}
use so_server_and_pipes.Fs.Memory.RoundTrip.{Holds}
use so_server_and_pipes.Task.{
  request_buffer_size, fitting, request_text, strcpy, joined, cut, field, print_byte,
  task_to_string, opcode, pipe_path, box_name,
}
use so_server_and_pipes.Task.Text.{string_at-Holds}

pub take_all {ℓ} : {A : Type ℓ} (n : ℕ) (xs : List A) → length xs ≤ n → take n xs ≡ xs
take_all zero [] h = refl
take_all zero (x ∷ xs) h = absurd (omega arith)
take_all (suc n) [] h = refl
take_all (suc n) (x ∷ xs) h = ap (λ l. x ∷ l) (take_all n xs (omega (arith, h)))

pub strcpy-eq :
    (size : ℕ) (m : Bytes) (a : ℕ) (s : List ℕ)
    → a + length s + 1 ≤ size
    → strcpy size m a s ≡ some (write_bytes m a (s ++ 0 ∷ []))
unfolding strcpy
strcpy-eq size m a s h = ground arith

-- `opcode`, `path` and `name` with a bar between them, for an opcode of one digit.
abbrev pub request_of : ℕ → List ℕ → List ℕ → List ℕ
request_of digit path name = digit ∷ b'|' ∷ path ++ (b'|' ∷ name)

fitting-eq :
    (text : List ℕ) → length text + 1 ≤ request_buffer_size → fitting (some text) ≡ some text
fitting-eq text h = ground arith

-- What a task with a path and a name, and an opcode of one digit, is printed as.
pub request_text-eq :
    (m : Bytes) (digit : ℕ) (path name : List ℕ)
    → print_byte (m opcode) ≡ digit ∷ []
    → IsText path
    → IsText name
    → Holds m pipe_path (path ++ 0 ∷ [])
    → Holds m box_name (name ++ 0 ∷ [])
    → length path + length name ≤ 287
    → request_text (some m) ≡ some (request_of digit path name)
unfolding request_text task_to_string joined
request_text-eq m digit path name op path_text name_text path_held name_held short =
    let text = request_of digit path name in
    let path_field : field m pipe_path ≡ some path =
      string_at-Holds m pipe_path path 2376 path_text (omega (arith, short)) path_held in
    let name_field : field m box_name ≡ some name =
      string_at-Holds m box_name name 2119 name_text (omega (arith, short)) name_held in
    let lengths : length text ≡ length path + length name + 3 =
      omega (arith, length-append path (b'|' ∷ name)) in
    ap (λ o. fitting (joined (m opcode) o (field m box_name))) path_field
    ∙ ap (λ o. fitting (joined (m opcode) (some path) o)) name_field
    ∙ ap (λ d. fitting (some (cut (d ++ (b'|' ∷ path ++ (b'|' ∷ name)))))) op
    ∙ ap (λ l. fitting (some l)) (take_all 1023 text (omega (arith, lengths, short)))
    ∙ fitting-eq text (omega (arith, lengths, short))

-- What is put into the buffer is printed by task_to_string.
fitting-some : (o : Option (List ℕ)) (text : List ℕ) → fitting o ≡ some text → o ≡ some text
fitting-some none text e = e
fitting-some (some t) text e = ground arith

pub request_text-task :
    (o : Option Bytes) (text : List ℕ)
    → request_text o ≡ some text
    → (m : Bytes) × (task_to_string m ≡ some text)
unfolding request_text
request_text-task none text e = absurd (ground (arith, e))
request_text-task (some m) text e = (m, fitting-some (task_to_string m) text e)
