-- ===== src/Torch.antt =====
-- The operations of torch that diffusion/local_step.py calls, and what it relies on of them.
use ded_swarm.Base.{ℕ, ◌≤◌, ◌<◌, ◌≡◌, true, false, List, contains, nat_eq, length, IsSetList, some}
use ded_swarm.Base.Ranges.{get_elem?}
use ded_swarm.Float.{Float}

-- A tensor, as a function of its last index.
abbrev pub Row : Type 0 → Type 0
Row A = ℕ → A

-- `trunc` and `round` are Python's `int` and `round` of a product of a fraction and a count; `tiny`
-- is 1e-12, and `topk` gives the indices that `torch.topk` returns. `vocab_size` is the length of
-- the rows of the model's output.
pub record Torch (F : Type 0) : Type 0 where
  pub vocab_size : ℕ
  pub neg_inf : F
  pub tiny : F
  pub neg : F → F
  pub mul : F → F → F
  pub div : F → F → F
  pub pow : F → F → F
  pub log : F → F
  pub exp : F → F
  pub trunc : F → ℕ
  pub round : F → ℕ
  pub softmax : Row F → Row F
  pub argmax : Row F → ℕ
  pub max_over : Row F → F
  pub topk : List F → ℕ → List ℕ

-- What torch documents. `topk` gives `k` different indices, and no value that it leaves out is
-- greater than one that it takes; ties are broken in any way. A softmax is a probability, so
-- that two of them do not lie 100 apart, and nothing subtracted from -inf leaves it.
pub record IsTorch (F : Type 0) ⦃f : Float F⦄ (torch : Torch F) : Type 0 where
  pub topk_count : (values : List F) (k : ℕ) → k ≤ length values → length (torch.topk values k) ≡ k
  pub topk_distinct :
      (values : List F) (k : ℕ) → k ≤ length values → IsSetList (torch.topk values k)
  pub topk_in_range :
      (values : List F) (k i : ℕ)
      → k ≤ length values
      → contains (torch.topk values k) i ≡ true
      → i < length values
  pub topk_largest :
      (values : List F) (k i j : ℕ) (u v : F)
      → k ≤ length values
      → contains (torch.topk values k) i ≡ true
      → contains (torch.topk values k) j ≡ false
      → get_elem? values i ≡ some u
      → get_elem? values j ≡ some v
      → f.le v u ≡ true
  pub softmax_finite :
      (logits : Row F) (v : ℕ) → f.le (torch.softmax logits v) torch.neg_inf ≡ false
  pub softmax_penalty :
      (logits : Row F) (v : ℕ)
      → f.le (f.sub (torch.softmax logits v) (f.of_nat 100)) torch.neg_inf ≡ false
  pub softmax_close :
      (logits other : Row F) (v w : ℕ)
      → f.le (torch.softmax logits v) (f.sub (torch.softmax other w) (f.of_nat 100)) ≡ false
  pub neg_inf_penalty : f.sub torch.neg_inf (f.of_nat 100) ≡ torch.neg_inf
