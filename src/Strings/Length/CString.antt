-- ===== src/Strings/Length/CString.antt =====
-- strlen of a text that ends in a null byte.
use tiny_base.Base.{
  ℕ, zero, suc, ◌+◌, ◌<◌, ◌≡◌, ◌≢◌, ◌^◌, refl, ap, ◌∙◌, arith, true, false, some, ◌==◌, ne→==,
  ==_iff,
}
use tiny_base.Base.Word.{sub_usz}
use tiny_base.Mem.{Mem}
use tiny_base.Memory.{buffer}
use tiny_base.Encoding.{Encoding}
use tiny_base.Strings.Length.{null_unit, find_null, len_c_string, strlen}

-- `n` bytes from `a` on, none of them null, and a null byte behind them.
abbrev pub IsCString : Mem → (a n : ℕ) → Type 0
IsCString m a n = ((i : ℕ) → i < n → m (a + i) ≢ 0) × (m (a + n) ≡ 0)

find_null_lem :
    (m : Mem) (a n fuel : ℕ) → IsCString m a n → n < fuel → find_null m 1 fuel a ≡ some (a + n)
unfolding find_null null_unit
find_null_lem m a n zero h lt = absurd (omega arith)
find_null_lem m a zero (suc fuel) h lt =
    let e : a + 0 ≡ a = omega arith in
    let end : (m a == 0) ≡ true = (==_iff (m a) 0).1 (rw e at (h.1)) in rw (end, e) refl
find_null_lem m a (suc n) (suc fuel) h lt =
    let e : a + suc n ≡ a + 1 + n = omega arith in
    let more : (m a == 0) ≡ false =
      ne→== (m a) 0 (λ z. h.0 0 (omega arith) (ap m (omega arith) ∙ z)) in
    let rest =
      find_null_lem m (a + 1) n fuel
        (λ i lt' z. h.0 (suc i) (omega arith) (ap m (omega arith) ∙ z), rw e at (h.1))
        (omega arith) in
    rw (more, e) rest

pub strlen_lem :
    (m : Mem) (a n fuel size : ℕ) (enc : Encoding)
    → IsCString m a n
    → n < fuel
    → a + n < 2 ^ 64
    → strlen fuel m (record { buf = buffer a 0 size; enc = enc }) ≡ some n
unfolding strlen len_c_string
strlen_lem m a n fuel size enc h lt room =
    let e : sub_usz (a + n) a ≡ n = omega arith in
    rw (len_c_string, find_null_lem m a n fuel h lt, e) refl
