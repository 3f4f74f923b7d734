-- ===== src/Net/Dns/Name.antt =====
-- net/net.c: dns_write_name writes the labels of a host name with their lengths.
use epona_os.Base.{
  ℕ, suc, ◌+◌, ◌≤◌, ◌<◌, ◌≡◌, refl, sym, ap, ◌∙◌, ◌≢◌, inl, false, Option, some, List, [], ◌∷◌,
  ◌++◌, arith, Arr, upd, upd_self, upd_ne, subst, length, length-append, ltb, leb, ◌==◌,
  write_bytes, write_bytes-out, Spells, Spells-join, Spells-ext, Spells-write_bytes,
}
use mathlib.Core.List.{append-nil}
use epona_os.Net.Dns.{write_name}

abbrev pub NoDot : List ℕ → Type 0
NoDot [] = Unit
NoDot (c ∷ cs) = (c ≢ b'.') × NoDot cs

-- 1 to 63 characters, none of them a dot.
abbrev pub AllLabels : List (List ℕ) → Type 0
AllLabels [] = Unit
AllLabels (l ∷ ls) = ((0 < length l) × (length l ≤ 63) × NoDot l) × AllLabels ls

-- The labels with dots between them, and on the wire.
abbrev pub dotted : List (List ℕ) → List ℕ
dotted [] = []
dotted (l ∷ []) = l
dotted (l ∷ m ∷ ls) = l ++ (b'.' ∷ dotted (m ∷ ls))

abbrev pub wire_name : List (List ℕ) → List ℕ
wire_name [] = 0 ∷ []
wire_name (l ∷ ls) = length l ∷ (l ++ wire_name ls)

-- The rest of a label.
write_chars :
    (cs rest : List ℕ) (pos k place out_len : ℕ) (out : Arr)
    → NoDot cs
    → 0 < k
    → k + length cs ≤ 63
    → pos + length cs ≤ out_len
    → write_name (cs ++ rest) pos k place out_len out
      ≡ write_name rest (pos + length cs) (k + length cs) place out_len (write_bytes cs pos out)
unfolding write_name write_bytes
write_chars [] rest pos k place out_len out nd pos_k short room =
    let e : pos + 0 ≡ pos = omega arith in let e' : k + 0 ≡ k = omega arith in rw (e, e') refl
write_chars (c ∷ cs) rest pos k place out_len out (n, nd) pos_k short room =
    let e0 : (k == 0) ≡ false = ground arith in
    let e1 : (c == b'.') ≡ false = ground (arith, n) in
    let e2 : leb out_len pos ≡ false = ground arith in
    let e3 : ltb 63 (k + 1) ≡ false = ground arith in
    let f : pos + suc (length cs) ≡ pos + 1 + length cs = omega arith in
    let f' : k + suc (length cs) ≡ k + 1 + length cs = omega arith in
    rw (e0, e1, e2, e3, f, f')
      (write_chars cs rest (pos + 1) (k + 1) place out_len (upd out pos c) nd (omega arith)
        (omega arith) (omega arith))

-- A whole label, at its start.
write_label :
    (l rest : List ℕ) (pos place out_len : ℕ) (out : Arr)
    → 0 < length l
    → length l ≤ 63
    → NoDot l
    → pos + 1 + length l ≤ out_len
    → write_name (l ++ rest) pos 0 place out_len out
      ≡ write_name rest (pos + 1 + length l) (length l) pos out_len (write_bytes l (pos + 1) out)
unfolding write_name write_bytes
write_label [] rest pos place out_len out lt short nd room = absurd (omega arith)
write_label (c ∷ cs) rest pos place out_len out lt short (n, nd) room =
    let e0 : leb out_len pos ≡ false = ground arith in
    let e1 : (c == b'.') ≡ false = ground (arith, n) in
    let e2 : leb out_len (pos + 1) ≡ false = ground arith in
    let f : pos + 1 + suc (length cs) ≡ pos + 1 + 1 + length cs = omega arith in
    let f' : suc (length cs) ≡ 1 + length cs = omega arith in
    rw (e0, e1, e2, f, f')
      (write_chars cs rest (pos + 1 + 1) 1 pos out_len (upd out (pos + 1) c) nd (omega arith)
        (omega arith) (omega arith))

write_dot :
    (rest : List ℕ) (pos k place out_len : ℕ) (out : Arr)
    → 0 < k
    → k ≤ 63
    → write_name (b'.' ∷ rest) pos k place out_len out
      ≡ write_name rest pos 0 place out_len (upd out place k)
unfolding write_name
write_dot rest pos k place out_len out lt short =
    let e0 : (k == 0) ≡ false = ground arith in
    let e1 : ltb 63 k ≡ false = ground arith in rw (e0, e1) refl

write_end :
    (pos k place out_len : ℕ) (out : Arr)
    → 0 < k
    → pos < out_len
    → write_name [] pos k place out_len out ≡ (some (pos + 1), upd (upd out place k) pos 0)
unfolding write_name
write_end pos k place out_len out lt room =
    let e0 : (k == 0) ≡ false = ground arith in
    let e1 : leb out_len pos ≡ false = ground arith in rw (e0, e1) refl

-- The bytes have been written from `pos` on, and none before.
pub record Written (pos : ℕ) (bytes : List ℕ) (out : Arr) (r : Option ℕ × Arr) : Type 0 where
  pub out' : Arr
  pub result : r ≡ (some (pos + length bytes), out')
  pub spelled : Spells out' pos bytes
  pub before : (j : ℕ) → j < pos → out' j ≡ out j

-- The buffer behind a label whose length has been filled in.
abbrev with_label : List ℕ → ℕ → Arr → Arr
with_label l pos out = upd (write_bytes l (pos + 1) out) pos (length l)

with_label-Spells :
    (l : List ℕ) (pos : ℕ) (out : Arr) → Spells (with_label l pos out) pos (length l ∷ l)
with_label-Spells l pos out = (
  upd_self (write_bytes l (pos + 1) out) pos (length l),
  Spells-ext (write_bytes l (pos + 1) out) (with_label l pos out) (pos + 1) l
      (λ j le lt. upd_ne (write_bytes l (pos + 1) out) pos j (length l) (omega arith))
      (Spells-write_bytes l (pos + 1) out),
)

with_label-before :
    (l : List ℕ) (pos : ℕ) (out : Arr) (j : ℕ) → j < pos → with_label l pos out j ≡ out j
with_label-before l pos out j lt =
    upd_ne (write_bytes l (pos + 1) out) pos j (length l) (omega arith)
    ∙ write_bytes-out l (pos + 1) out j (inl (omega arith))

-- A label in front of a name that has been written behind it.
Written-label :
    (l : List ℕ) (ls : List (List ℕ)) (pos : ℕ) (out : Arr) (r : Option ℕ × Arr)
    → Written (pos + 1 + length l) (wire_name ls) (with_label l pos out) r
    → Written pos (wire_name (l ∷ ls)) out r
Written-label l ls pos out r w =
    let n : pos + 1 + length l + length (wire_name ls) ≡ pos + suc (length (l ++ wire_name ls)) =
      omega (arith, length-append l (wire_name ls)) in
    let front : Spells w.out' pos (length l ∷ l) =
      Spells-ext (with_label l pos out) w.out' pos (length l ∷ l)
        (λ j le lt. w.before j (omega arith)) (with_label-Spells l pos out) in
    let e : pos + 1 + length l ≡ pos + suc (length l) = omega arith in
    record {
      out' = w.out';
      result = w.result ∙ ap (λ k. (some k, w.out')) n;
      spelled =
          Spells-join w.out' pos (length l ∷ l) (wire_name ls) front
            (subst (λ k. Spells w.out' k (wire_name ls)) e w.spelled);
      before = λ j lt. w.before j (omega arith) ∙ with_label-before l pos out j lt;
    }

-- `dns_write_name` writes each label of the host name behind its length, and a zero at the end, and returns
-- the number of these bytes, whenever they fit into the buffer.
pub write_name-Written :
    (l : List ℕ) (ls : List (List ℕ)) (pos place out_len : ℕ) (out : Arr)
    → AllLabels (l ∷ ls)
    → pos + length (wire_name (l ∷ ls)) ≤ out_len
    → Written pos (wire_name (l ∷ ls)) out (write_name (dotted (l ∷ ls)) pos 0 place out_len out)
write_name-Written l [] pos place out_len out ((lt, short, nd), all) room =
    let la = length-append l (0 ∷ []) in
    let p : ℕ = pos + 1 + length l in
    let done =
      ap (λ h. write_name h pos 0 place out_len out) (sym (append-nil l))
      ∙ write_label l [] pos place out_len out lt short nd (omega (arith, la))
      ∙ write_end p (length l) pos out_len (write_bytes l (pos + 1) out) lt (omega (arith, la)) in
    Written-label l [] pos out _ (record {
      out' = upd (with_label l pos out) p 0;
      result = done;
      spelled = (upd_self (with_label l pos out) p 0, _);
      before = λ j lt'. upd_ne (with_label l pos out) p j 0 (omega arith);
    })
write_name-Written l (m ∷ ls) pos place out_len out ((lt, short, nd), all) room =
    let la = length-append l (wire_name (m ∷ ls)) in
    let p : ℕ = pos + 1 + length l in
    let rest : List ℕ = dotted (m ∷ ls) in
    let step =
      write_label l (b'.' ∷ rest) pos place out_len out lt short nd (omega (arith, la))
      ∙ write_dot rest p (length l) pos out_len (write_bytes l (pos + 1) out) lt short in
    Written-label l (m ∷ ls) pos out _ (
      subst (Written p (wire_name (m ∷ ls)) (with_label l pos out)) (sym step)
        (write_name-Written m ls p pos out_len (with_label l pos out) all (omega (arith, la))))
