-- ===== src/Coder/Output/Laws.antt =====
-- The bits that a `BitOutputStream` has been given.
use deep_space_detection.Base.{
  IsBytes, IsBytes-append, length-append, ℕ, zero, suc, ◌+◌, ◌-◌, ◌*◌, ◌/◌, ◌%◌, ◌^◌, ◌≡◌, ◌<◌, ◌≤◌,
  ◌∙◌, refl, ap, sym, List, [], ◌∷◌, ◌++◌, true, false, ◌==◌, ◌||◌, bit_or, u8, Bool-cases, inl,
  inr, arith, replicate, length,
}
use deep_space_detection.Base.Bits.{bit_or_low}
use mathlib.Core.List.{append_assoc, append-nil}
use native.Mathlib.Nat.{pow-suc, pow-le-pow_right}
use deep_space_detection.Coder.Exec.{ok, ◌>>=◌}
use deep_space_detection.Coder.Output.{BitOutputStream, put_full, write, fill_up, close}

-- The low `w` bits of a number, the highest first.
abbrev pub digits : ℕ → ℕ → List ℕ
digits zero v = []
digits (suc w) v = digits w (v / 2) ++ (v % 2) ∷ []

abbrev pub bits_of : List ℕ → List ℕ
bits_of [] = []
bits_of (b ∷ bs) = digits 8 b ++ bits_of bs

pub bits_of-append : (xs ys : List ℕ) → bits_of (xs ++ ys) ≡ bits_of xs ++ bits_of ys
bits_of-append [] ys = refl
bits_of-append (x ∷ xs) ys =
    ap (λ l. digits 8 x ++ l) (bits_of-append xs ys)
    ∙ sym (append_assoc (digits 8 x) (bits_of xs) (bits_of ys))

abbrev pub content : BitOutputStream → List ℕ
content s = bits_of s.file ++ digits s.m_numbitsfilled s.m_currentbyte

pub record IsStream (s : BitOutputStream) : Type 0 where
  pub filled : s.m_numbitsfilled < 8
  pub current : s.m_currentbyte < 2 ^ s.m_numbitsfilled
  pub opened : s.is_open ≡ true
  pub bytes : IsBytes s.file

-- One bit behind the others.
digits-push : (w v b : ℕ) → b < 2 → digits (suc w) (2 * v + b) ≡ digits w v ++ b ∷ []
digits-push w v b h =
    let half : (2 * v + b) / 2 ≡ v = omega arith in
    let low : (2 * v + b) % 2 ≡ b = omega arith in rw (half, low)

push_bit : (v b : ℕ) → v < 128 → b < 2 → bit_or (u8 (v * 2 ^ 1)) b ≡ 2 * v + b
push_bit v b h k =
    ap (λ (t : ℕ). bit_or t b) (omega arith) ∙ bit_or_low 1 v b (omega arith) ∙ omega arith

module _ (s : BitOutputStream) (h : IsStream s) (b : ℕ) (bit : b < 2) where
  small : s.m_currentbyte < 128
  small =
      let p : 2 ^ s.m_numbitsfilled ≤ 2 ^ 7 =
        pow-le-pow_right (omega arith) {i = s.m_numbitsfilled} {j = 7} (omega (arith, h.filled)) in
      omega (arith, h.current)

  abbrev pushed : BitOutputStream
  pushed = record s {
    m_currentbyte = 2 * s.m_currentbyte + b;
    m_numbitsfilled = s.m_numbitsfilled + 1;
  }

  write-pushed : write b s ≡ ok (put_full pushed)
  unfolding write
  write-pushed =
      let test : (b == 0 || b == 1) ≡ true = ground arith in
      rw (test, push_bit s.m_currentbyte b small bit) refl

  more : suc s.m_numbitsfilled ≡ s.m_numbitsfilled + 1
  more = omega arith

  digits-pushed :
      digits (s.m_numbitsfilled + 1) (2 * s.m_currentbyte + b)
      ≡ digits s.m_numbitsfilled s.m_currentbyte ++ b ∷ []
  digits-pushed = rw (← more) (digits-push s.m_numbitsfilled s.m_currentbyte b bit)

  pushed-lt : 2 * s.m_currentbyte + b < 2 ^ (s.m_numbitsfilled + 1)
  pushed-lt = rw (← more) (omega (arith, pow-suc 2 s.m_numbitsfilled, h.current))

  IsStream-put_full : IsStream (put_full pushed)
  IsStream-put_full = elim (Bool-cases (s.m_numbitsfilled + 1 == 8)) [
    | inl e ↦
        let byte : 2 * s.m_currentbyte + b < 2 ^ 8 = omega (arith, small) in
        rw (e, h.opened)
          (record {
            filled = omega arith;
            current = omega arith;
            opened = refl;
            bytes = IsBytes-append s.file ((2 * s.m_currentbyte + b) ∷ []) h.bytes (byte, tt);
          })
    | inr e ↦ rw e (record {
      filled = ground (arith, h.filled);
      current = pushed-lt;
      opened = h.opened;
      bytes = h.bytes;
    })
  ]

  content-put_full : content (put_full pushed) ≡ content s ++ b ∷ []
  content-put_full = elim (Bool-cases (s.m_numbitsfilled + 1 == 8)) [
    | inl e ↦
        let x = 2 * s.m_currentbyte + b in
        let eight : s.m_numbitsfilled + 1 ≡ 8 = ground arith in
        let d : digits 8 x ≡ digits s.m_numbitsfilled s.m_currentbyte ++ b ∷ [] =
          ap (λ (w : ℕ). digits w x) (sym eight) ∙ digits-pushed in
        rw (e, h.opened)
          (append-nil (bits_of (s.file ++ x ∷ []))
            ∙ bits_of-append s.file (x ∷ [])
            ∙ ap (λ l. bits_of s.file ++ l) (append-nil (digits 8 x) ∙ d)
            ∙ sym
                (append_assoc (bits_of s.file) (digits s.m_numbitsfilled s.m_currentbyte) (b ∷ [])))
    | inr e ↦ rw e (
        ap (λ l. bits_of s.file ++ l) digits-pushed
        ∙ sym (append_assoc (bits_of s.file) (digits s.m_numbitsfilled s.m_currentbyte) (b ∷ [])))
  ]

  -- A written bit stands behind those before.
  pub write_lem :
      (s' : BitOutputStream) × (write b s ≡ ok s')
      × IsStream s'
      × (content s' ≡ content s ++ b ∷ [])
  write_lem = (put_full pushed, write-pushed, IsStream-put_full, content-put_full)

  pub filled-put_full : (put_full pushed).m_numbitsfilled ≡ (s.m_numbitsfilled + 1) % 8
  filled-put_full = ground (arith, h.filled)

nothing_added :
    (s : BitOutputStream)
    → s.m_numbitsfilled ≡ 0
    → content s ≡ content s ++ replicate ((8 - s.m_numbitsfilled) % 8) 0
nothing_added s e =
    let none_left : (8 - s.m_numbitsfilled) % 8 ≡ 0 = omega arith in
    sym (append-nil (content s)) ∙ ap (λ (n : ℕ). content s ++ replicate n 0) (sym none_left)

-- `k` zeros fill up the byte.
fill_up_lem :
    (k : ℕ) (s : BitOutputStream)
    → IsStream s
    → (8 - s.m_numbitsfilled) % 8 ≤ k
    → (s' : BitOutputStream) × (fill_up k s ≡ ok s')
      × IsStream s'
      × (s'.m_numbitsfilled ≡ 0)
      × (content s' ≡ content s ++ replicate ((8 - s.m_numbitsfilled) % 8) 0)
unfolding fill_up
fill_up_lem zero s h fuel =
    let none_left : s.m_numbitsfilled ≡ 0 = omega (arith, h.filled) in
    (s, ground arith, h, none_left, nothing_added s none_left)
fill_up_lem (suc k) s h fuel = elim (Bool-cases (s.m_numbitsfilled == 0)) [
  | inl e ↦ (s, rw (e, fill_up) refl, h, ground arith, nothing_added s (ground arith))
  | inr e ↦
      let t = put_full (pushed s h 0 (omega arith)) in
      let count = filled-put_full s h 0 (omega arith) in
      let (s', run, h', aligned, c) =
        fill_up_lem k t (IsStream-put_full s h 0 (omega arith)) (ground (arith, count, h.filled)) in
      let left : (8 - s.m_numbitsfilled) % 8 ≡ suc ((8 - t.m_numbitsfilled) % 8) =
        ground (arith, count, h.filled) in
      (
        s',
        rw (e, fill_up) (ap (λ m. m >>= fill_up k) (write-pushed s h 0 (omega arith)) ∙ run),
        h',
        aligned,
        c
            ∙ ap (λ l. l ++ replicate ((8 - t.m_numbitsfilled) % 8) 0)
                (content-put_full s h 0 (omega arith))
            ∙ append_assoc (content s) (0 ∷ []) (replicate ((8 - t.m_numbitsfilled) % 8) 0)
            ∙ ap (λ (n : ℕ). content s ++ replicate n 0) (sym left),
      )
]

length-digits : (w v : ℕ) → length (digits w v) ≡ w
length-digits zero v = refl
length-digits (suc w) v =
    omega (arith, length-append (digits w (v / 2)) ((v % 2) ∷ []), length-digits w (v / 2))

pub length-bits_of : (bytes : List ℕ) → length (bits_of bytes) ≡ 8 * length bytes
length-bits_of [] = omega arith
length-bits_of (b ∷ bs) =
    omega (arith, length-append (digits 8 b) (bits_of bs), length-digits 8 b, length-bits_of bs)

pub length-content :
    (s : BitOutputStream) → length (content s) ≡ 8 * length s.file + s.m_numbitsfilled
length-content s = omega (
  arith,
  length-append (bits_of s.file) (digits s.m_numbitsfilled s.m_currentbyte),
  length-bits_of s.file,
  length-digits s.m_numbitsfilled s.m_currentbyte,
)

-- How many zeros fill up `n` bits to whole bytes.
abbrev pub padding : ℕ → ℕ
padding n = (8 - n % 8) % 8

-- After `close` the file holds the bits that were written, filled up by zeros.
pub close_lem :
    (k : ℕ) (s : BitOutputStream)
    → IsStream s
    → 7 ≤ k
    → (s' : BitOutputStream) × (close k s ≡ ok s')
      × (bits_of s'.file ≡ content s ++ replicate (padding (length (content s))) 0)
      × IsBytes s'.file
unfolding close
close_lem k s h fuel =
    let (t, run, th, aligned, c) = fill_up_lem k s h (omega arith) in
    let same : (8 - s.m_numbitsfilled) % 8 ≡ padding (length (content s)) =
      omega (arith, length-content s, h.filled) in
    (
      record t { is_open = false },
      rw run refl,
      sym (append-nil (bits_of t.file))
          ∙ ap (λ (w : ℕ). bits_of t.file ++ digits w t.m_currentbyte) (sym aligned)
          ∙ c
          ∙ ap (λ (n : ℕ). content s ++ replicate n 0) same,
      th.bytes,
    )
