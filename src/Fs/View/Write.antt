-- ===== src/Fs/View/Write.antt =====
-- tfs_write as a change of the map from names to bytes.
use so_server_and_pipes.Base.{
  ℕ, ◌+◌, ◌*◌, ◌≤◌, ◌≡◌, refl, sym, ap, ◌∙◌, ◌≢◌, inl, inr, Option, some, List, arith, length,
  update, ℤ, pos, update_self, update-ne,
}
use so_server_and_pipes.Base.{subst}
use so_server_and_pipes.Fs.Exec.{Fs, Inode, taken, free}
use so_server_and_pipes.Fs.Memory.{Bytes, write_bytes, read_bytes}
use so_server_and_pipes.Fs.Dir.Entries.{IsName}
use so_server_and_pipes.Fs.Ops.Handles.{node, entry}
use so_server_and_pipes.Fs.Ops.Paths.{root_value}
use so_server_and_pipes.Fs.Ops.Write.{grown, after_write}
use so_server_and_pipes.Fs.Ops.WriteNew.{with_block}
use so_server_and_pipes.Fs.Inv.{Good, IsLive, IsOpenOn, Stores, IsDataBlock, name_value}
use so_server_and_pipes.Fs.Inv.Tables.{update-update, used_apart}
use so_server_and_pipes.Fs.Inv.Frame.{kept-name_value}
use so_server_and_pipes.Fs.Inv.Returns.{file-cases}
use so_server_and_pipes.Fs.View.{file_bytes, contents, overwrite, bytes_of}
use so_server_and_pipes.Fs.View.Frame.{
  inode_bytes, inode_bytes-empty, inode_bytes-block, inode_bytes-overwrite, inode_bytes-kept,
  write_bytes-other_block,
}

-- The state after inode `p` becomes `v`, and memory `m`, as far as the contents go.
abbrev stored : Fs → ℕ → Inode → Bytes → Fs
stored s p v m = record s { inode_table = update s.inode_table p v; fs_data = m }

-- The inode of a file in block `c` after a write to it that ends at `stop`.
abbrev with_bytes : Inode → ℕ → ℕ → Inode
with_bytes nd c stop = record nd { i_size = grown nd.i_size stop; i_data_block = pos c }

module _ (s : Fs) {b : ℕ} (g : Good s b) {i p : ℕ} (bytes : List ℕ)
    (o : IsOpenOn s.fs_params s.inode_table s.freeinode_ts (entry s i) p)
    (fits : (entry s i).of_offset + length bytes ≤ s.fs_params.block_size) (c : ℕ)
    (not_root : b ≢ c)
    (alone : (q d : ℕ)
      → p ≢ q
      → IsLive s.fs_params s.freeinode_ts q
      → Stores s.inode_table q d
      → c ≢ d)
    (n : List ℕ) (name : IsName n) (here : root_value s b n ≡ pos p) where
  m' : Bytes
  m' = write_bytes s.fs_data (c * s.fs_params.block_size + (entry s i).of_offset) bytes

  names_kept : (t : List ℕ) → name_value s.fs_params m' b t ≡ root_value s b t
  unfolding m'
  names_kept = kept-name_value s.fs_params b (
      write_bytes-other_block s.fs_data s.fs_params.block_size c b (entry s i).of_offset
        s.fs_params.block_size bytes (λ e. not_root (sym e)) fits (omega arith))

  v : Inode
  v = with_bytes (node s p) c ((entry s i).of_offset + length bytes)

  stored-contents :
      contents (stored s p v m') b n
      ≡ some (
          overwrite
            (read_bytes s.fs_data (c * s.fs_params.block_size) (node s p).i_size)
            (entry s i).of_offset
            bytes)
  unfolding m' v
  stored-contents =
      ap (bytes_of (stored s p v m')) (names_kept n ∙ here)
      ∙ ap (λ (x : Inode). some (inode_bytes m' s.fs_params.block_size x))
          (update_self s.inode_table p v)
      ∙ ap some (
          inode_bytes-overwrite s.fs_data s.fs_params.block_size c (node s p).i_size
            (entry s i).of_offset bytes v refl refl o.inside)

  stored-file_bytes :
      (q : ℕ)
      → p ≢ q
      → IsLive s.fs_params s.freeinode_ts q
      → file_bytes (stored s p v m') q ≡ file_bytes s q
  unfolding m' v
  stored-file_bytes q ne live =
      ap (inode_bytes m' s.fs_params.block_size) (update-ne s.inode_table p v q ne)
      ∙ inode_bytes-kept s.fs_data m' s.fs_params.block_size (node s q)
          (elim (file-cases s g q live) [
            | inl e ↦ inl e
            | inr (d, st, hb, db) ↦ inr (
              d,
              st.block,
              write_bytes-other_block s.fs_data s.fs_params.block_size c d (entry s i).of_offset
                  (node s q).i_size bytes (alone q d ne live st) fits (g.nodes_ok.fits q live),
            )
          ])

  stored-other : (t : List ℕ) → IsName t → t ≢ n → contents (stored s p v m') b t ≡ contents s b t
  unfolding m' v
  stored-other t ht other =
      ap (bytes_of (stored s p v m')) (names_kept t) ∙ elim (g.names_ok.target t ht) [
        | inl e ↦ ap (bytes_of (stored s p v m')) e ∙ sym (ap (bytes_of s) e)
        | inr (q, e, live) ↦
            ap (bytes_of (stored s p v m')) e
            ∙ ap some (
                stored-file_bytes q
                  (λ same. other (g.names_ok.one_name t n q ht name e (here ∙ ap pos same))) live)
            ∙ sym (ap (bytes_of s) e)
      ]

-- Name `n` stands for `new`, and every other name for what it stood for.
pub record IsChanged (s s' : Fs) (b : ℕ) (n : List ℕ) (new : Option (List ℕ)) : Type 0 where
  pub changed : contents s' b n ≡ new
  pub others : (t : List ℕ) → IsName t → t ≢ n → contents s' b t ≡ contents s b t

module _ (s : Fs) {b : ℕ} (g : Good s b) {i p : ℕ} (bytes : List ℕ)
    (o : IsOpenOn s.fs_params s.inode_table s.freeinode_ts (entry s i) p)
    (fits : (entry s i).of_offset + length bytes ≤ s.fs_params.block_size) (n : List ℕ)
    (name : IsName n) (here : root_value s b n ≡ pos p) where
  pub after_write-IsChanged :
      {c : ℕ}
      → Stores s.inode_table p c
      → IsDataBlock s.fs_params s.free_blocks b c
      → IsChanged s
          (after_write s i p c bytes)
          b
          n
          (some (overwrite (file_bytes s p) (entry s i).of_offset bytes))
  unfolding v m'
  after_write-IsChanged {c} st db =
      let alone =
        λ (q d : ℕ) (ne : p ≢ q) (live : IsLive s.fs_params s.freeinode_ts q)
            (sq : Stores s.inode_table q d) (e : c ≡ d).
          ne (g.nodes_ok.apart p q d o.live live (subst (Stores s.inode_table p) e st) sq) in
      let stop = (entry s i).of_offset + length bytes in
      let shown = λ (t : List ℕ) (x : ℤ).
        contents
          (record (after_write s i p c bytes) {
            inode_table =
                update s.inode_table p
                  (record (node s p) { i_size = grown (node s p).i_size stop; i_data_block = x });
          })
          b t in
      record {
        changed =
            ap (shown n) st.block
            ∙ stored-contents s g bytes o fits c db.not_root alone n name here
            ∙ ap (λ (l : List ℕ). some (overwrite l (entry s i).of_offset bytes))
                (sym (inode_bytes-block s.fs_data s.fs_params.block_size c (node s p) st.block));
        others = λ t ht other.
            ap (shown t) st.block
            ∙ stored-other s g bytes o fits c db.not_root alone n name here t ht other;
      }

  pub after_write_new-IsChanged :
      {c : ℕ}
      → (node s p).i_size ≡ 0
      → s.free_blocks c ≡ free
      → IsChanged s
          (after_write (with_block s p c) i p c bytes)
          b
          n
          (some (overwrite (file_bytes s p) (entry s i).of_offset bytes))
  unfolding v m'
  after_write_new-IsChanged {c} empty unused =
      let alone =
        λ (q d : ℕ) (ne : p ≢ q) (live : IsLive s.fs_params s.freeinode_ts q)
            (sq : Stores s.inode_table q d).
          used_apart s.free_blocks unused (stored_in_use q d live sq) in
      let root_apart =
        λ (e : b ≡ c). used_apart s.free_blocks unused g.nodes_ok.root_taken (sym e) in
      let nd = record (node s p) { i_data_block = pos c } in
      let stop = (entry s i).of_offset + length bytes in
      let table =
        update-update s.inode_table p nd _
        ∙ ap (λ (x : Inode). update s.inode_table p (record x { i_size = grown x.i_size stop }))
            (update_self s.inode_table p nd) in
      let shown = λ (t : List ℕ) (x : ℕ → Inode).
        contents (record (after_write (with_block s p c) i p c bytes) { inode_table = x }) b t in
      record {
        changed =
            ap (shown n) table
            ∙ stored-contents s g bytes o fits c root_apart alone n name here
            ∙ ap (λ (l : List ℕ). some (overwrite l (entry s i).of_offset bytes))
                (ap (read_bytes s.fs_data (c * s.fs_params.block_size)) empty
                  ∙ sym (inode_bytes-empty s.fs_data s.fs_params.block_size (node s p) empty));
        others = λ t ht other.
            ap (shown t) table
            ∙ stored-other s g bytes o fits c root_apart alone n name here t ht other;
      }
    where
      stored_in_use :
          (q d : ℕ)
          → IsLive s.fs_params s.freeinode_ts q
          → Stores s.inode_table q d
          → s.free_blocks d ≡ taken
      stored_in_use q d live sq = elim (file-cases s g q live) [
        | inl e ↦ absurd (omega (arith, e, sq.some_bytes))
        | inr (d', st, hb, db) ↦
            let x = sq.block in
            let y = st.block in
            let same : d' ≡ d = cc in subst (λ z. s.free_blocks z ≡ taken) same db.in_use
      ]
