-- ===== src/Broker/Names.antt =====
-- The table of boxes as the list of their names, and what box_remove_request does to it.
use so_server_and_pipes.Base.{
  ℕ, zero, suc, ◌+◌, ◌≤◌, ◌<◌, ◌≡◌, refl, sym, ap, ◌∙◌, Bool, true, false, some, List, [], ◌∷◌,
  arith, ltb, if◌then◌else◌, pos, find_below, lt→ltb,
}
use native.Mathlib.Decide.{ℕ_discrete}
use so_server_and_pipes.Base.{find_below-some}
use so_server_and_pipes.Fs.Exec.{Fs, ok}
use so_server_and_pipes.Fs.Ops.{tfs_unlink}
use so_server_and_pipes.Os.{Answer, done}
use so_server_and_pipes.Broker.{MailBox, Broker, name_of, is_box_of, str_eq, rounds}
use so_server_and_pipes.Broker.Boxes.{box_remove_request}
use so_server_and_pipes.Broker.Remove.{removed, box_remove_request-done, removed-boxes}

-- The names of `k` boxes from box `i` on.
abbrev pub names_from : (ℕ → List ℕ) → ℕ → ℕ → List (List ℕ)
names_from f i zero = []
names_from f i (suc k) = f i ∷ names_from f (i + 1) k

-- The names of the boxes, in their order.
abbrev pub box_names : Broker → List (List ℕ)
box_names b = names_from (λ i. name_of b (b.boxes i).box_name) 0 (rounds b.current_boxes)

-- The list without the first of a name.
abbrev pub without_name : List ℕ → List (List ℕ) → List (List ℕ)
without_name n [] = []
without_name n (x ∷ xs) = let rest = without_name n xs in if str_eq x n then xs else x ∷ rest

names_from-same :
    (f g : ℕ → List ℕ) (i k : ℕ)
    → ((x : ℕ) → i ≤ x → x < i + k → f x ≡ g x)
    → names_from f i k ≡ names_from g i k
names_from-same f g i zero h = refl
names_from-same f g i (suc k) h = rw (
  h i (omega arith) (omega arith),
  names_from-same f g (i + 1) k (λ x lo hi. h x (omega arith) (omega arith)),
)

names_from-next :
    (f : ℕ → List ℕ) (i k : ℕ) → names_from (λ x. f (x + 1)) i k ≡ names_from f (i + 1) k
names_from-next f i zero = refl
names_from-next f i (suc k) = ap (λ l. f (i + 1) ∷ l) (names_from-next f (i + 1) k)

-- The values of `f` without the one at index `r`.
abbrev skipping : (ℕ → List ℕ) → ℕ → ℕ → List ℕ
skipping f r x = if ltb x r then f x else f (x + 1)

skipping-behind : (f : ℕ → List ℕ) (r x : ℕ) → r ≤ x → f (x + 1) ≡ skipping f r x
skipping-behind f r x le = ground arith

-- At the first of the name.
without_name-here :
    (n : List ℕ) (f : ℕ → List ℕ) (r k i : ℕ)
    → i ≡ r
    → str_eq (f r) n ≡ true
    → without_name n (names_from f i (suc k)) ≡ names_from (skipping f r) i k
without_name-here n f r k i e found =
    let here : str_eq (f i) n ≡ true = ap (λ x. str_eq (f x) n) e ∙ found in
    rw here (
      sym (names_from-next f i k)
      ∙ names_from-same (λ x. f (x + 1)) (skipping f r) i k
          (λ x lo hi. skipping-behind f r x (omega (arith, e))))

without_name-names_from :
    (n : List ℕ) (f : ℕ → List ℕ) (r k i : ℕ)
    → i ≤ r
    → r < i + suc k
    → str_eq (f r) n ≡ true
    → ((x : ℕ) → i ≤ x → x < r → str_eq (f x) n ≡ false)
    → without_name n (names_from f i (suc k)) ≡ names_from (skipping f r) i k
without_name-names_from n f r zero i lo hi found other =
    without_name-here n f r zero i (omega arith) found
without_name-names_from n f r (suc k) i lo hi found other = elim (ℕ_discrete i r) [
  | yes e ↦ without_name-here n f r (suc k) i e found
  | no ne ↦
      let not_here = other i (omega arith) (omega (arith, ne)) in
      let before = lt→ltb i r (omega (arith, ne)) in
      rw (not_here, before)
        (ap (λ l. f i ∷ l)
          (without_name-names_from n f r k (i + 1) (omega (arith, ne)) (omega arith) found
            (λ x lo' hi'. other x (omega arith) hi')))
]

-- With a box of the task's name in the table and its file unlinked, the names of the boxes after the
-- request are those before it without the first of that name.
pub box_names-box_remove_request :
    (task : ℕ) (b : Broker) (a : Answer) (rest : List Answer) (n r : ℕ) (fs : Fs)
    → b.os.answers ≡ a ∷ rest
    → b.current_boxes ≡ pos (suc n)
    → find_below (is_box_of b task) (suc n) ≡ some r
    → tfs_unlink (some (name_of b task)) b.fs ≡ ok (pos 0) fs
    → (b' : Broker) × (box_remove_request task b ≡ done tt b')
      × (box_names b' ≡ without_name (name_of b task) (box_names b))
box_names-box_remove_request task b a rest n r fs e count found unlinked =
    let first = find_below-some (is_box_of b task) (suc n) r found in
    let names : ℕ → List ℕ = λ i. name_of b (b.boxes i).box_name in
    (
      removed b task rest n fs,
      box_remove_request-done task b a rest n r fs e count found unlinked,
      names_from-same (λ i. name_of b ((removed b task rest n fs).boxes i).box_name)
            (skipping names r) 0 n
            (λ x lo hi.
              ap (λ m. name_of b m.box_name)
                (removed-boxes task b a rest n r fs e count found unlinked x (omega arith))
              ∙ name_of_choice b (ltb x r) (b.boxes x) (b.boxes (x + 1)))
          ∙ sym (
              without_name-names_from (name_of b task) names r n 0 (omega arith)
                (omega (arith, first.below)) first.passes first.before)
          ∙ ap (λ c. without_name (name_of b task) (names_from names 0 (rounds c))) (sym count),
    )
  where
    name_of_choice :
        (b : Broker) (v : Bool) (x y : MailBox)
        → name_of b (if v then x else y).box_name
          ≡ (if v then name_of b x.box_name else name_of b y.box_name)
    name_of_choice b true x y = refl
    name_of_choice b false x y = refl
