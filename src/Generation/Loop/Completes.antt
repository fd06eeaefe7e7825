-- ===== src/Generation/Loop/Completes.antt =====
-- A round that `run_round` finishes has filled every block.
use ded_swarm.Base.{
  ℕ, ◌+◌, ◌-◌, ◌*◌, ◌/◌, ◌≤◌, ◌<◌, ◌≡◌, ◌≢◌, inl, inr, refl, true, false, ◌&&◌, List, [], ◌∷◌,
  nat_eq, string_eq, none, some, ltb, leb, length, contains, ok, ◌>>=◌, >>=-eq-ok, arith,
  Option-cases,
}
use ded_swarm.Base.Dict.{Dict, lookup}
use ded_swarm.Base.Ranges.{get_elem?}
use ded_swarm.Float.{Float}
use ded_swarm.Torch.{Row, Torch, IsTorch}
use ded_swarm.Protocol.{MsgType, Payload}
use ded_swarm.Consensus.{Position, Token, TokenSet}
use ded_swarm.Consensus.Adopt.{IsIteration}
use ded_swarm.Stop
use ded_swarm.Round.{RoundState}
use ded_swarm.Swarm.{SwarmNode}
use ded_swarm.Swarm.Collect.{contains-discard}
use ded_swarm.Generation.Loop.{
  Run, RoundArgs, GenConfig, Moment, Progress, going, aborted, waiting, finished, enumerate,
  masked_row, begin, round_args, finish, run_blocks, run_round,
}
use ded_swarm.Generation.Loop.Settled.{has_key, IsHeld}
use ded_swarm.Generation.Loop.Steps.{Before, run_blocks-IsHeld}
use native.Mathlib.Nat.{div-mul-le_self, le-div_iff_mul-le}

get_elem?-length :
    (xs : List ℕ) (i : ℕ)
    → (elim (get_elem? xs i) [ none ↦ false | some _ ↦ true ]) ≡ ltb i (length xs)
get_elem?-length [] i = ground arith
get_elem?-length (x ∷ xs) i = ground (arith, get_elem?-length xs (i - 1))

-- The prompt is shared from the start.
has_key-enumerate :
    (i : ℕ) (ts : List Token) (pos : ℕ)
    → has_key pos (enumerate i ts) ≡ (leb i pos && ltb pos (i + length ts))
unfolding enumerate lookup
has_key-enumerate i [] pos = ground arith
has_key-enumerate i (t ∷ ts) pos = ground (arith, has_key-enumerate (i + 1) ts pos)

pub div-is_pos : (m n : ℕ) → 1 ≤ n → n ≤ m → 1 ≤ m / n
div-is_pos m n h k = (le-div_iff_mul-le h).1 (omega arith)

module _ {F : Type 0} where
  finish-eq-finished :
      (a : RoundArgs F) (progress : Progress F) (n : SwarmNode F) (shared_x : Dict Position Token)
      (published : List (MsgType × Payload F))
      → finish a progress ≡ finished n shared_x published
      → (r : Run F) × (progress ≡ going r) × (r.shared_x ≡ shared_x)
  unfolding finish
  finish-eq-finished a (going r) n shared_x published e = (r, refl, cc)
  finish-eq-finished a (aborted m sent) n shared_x published e = cc
  finish-eq-finished a waiting n shared_x published e = cc

module _ {F : Type 0} ⦃f : Float F⦄ (torch : Torch F) (laws : IsTorch F torch)
    (iter : TokenSet → List Token) (law : IsIteration iter) where
  begin-IsHeld :
      (n : SwarmNode F) (state : RoundState F) (model : Row ℕ → Row (Row F))
      (moment : ℕ → ℕ → Moment F) (prompt_ids : List Token) (cfg : GenConfig F)
      → IsHeld (round_args n state model moment prompt_ids cfg) (begin n prompt_ids cfg)
  unfolding begin round_args masked_row Stop.init
  begin-IsHeld n state model moment prompt_ids cfg = record {
    held = λ pos lt shown.
        ground (arith, has_key-enumerate 0 prompt_ids pos, get_elem?-length prompt_ids pos);
    unset = refl;
    unfrozen = refl;
    same_cfg = refl;
  }

  begins :
      (n : SwarmNode F) (state : RoundState F) (model : Row ℕ → Row (Row F))
      (moment : ℕ → ℕ → Moment F) (prompt_ids : List Token) (cfg : GenConfig F)
      → Before (round_args n state model moment prompt_ids cfg) 0 (begin n prompt_ids cfg)
  unfolding begin round_args
  begins n state model moment prompt_ids cfg =
      (λ pos lt h. ground (arith, has_key-enumerate 0 prompt_ids pos), refl)

  alone :
      (n : SwarmNode F) (state : RoundState F) (model : Row ℕ → Row (Row F))
      (moment : ℕ → ℕ → Moment F) (prompt_ids : List Token) (cfg : GenConfig F)
      → let a = round_args n state model moment prompt_ids cfg in
        contains a.other_participants a.id ≡ false
  unfolding round_args
  alone n state model moment prompt_ids cfg =
      ground (arith, contains-discard n.id n.id state.participants)

  -- A round that is finished is one whose blocks have run.
  run_round-eq-finished :
      (n n' : SwarmNode F) (model : Row ℕ → Row (Row F)) (moment : ℕ → ℕ → Moment F)
      (prompt_ids : List Token) (cfg : GenConfig F) (shared_x : Dict Position Token)
      (published : List (MsgType × Payload F))
      → run_round torch iter n model moment prompt_ids cfg ≡ ok (finished n' shared_x published)
      → (state : RoundState F) × (r : Run F) × (run_blocks torch iter
            (round_args n state model moment prompt_ids cfg)
            (cfg.gen_length / cfg.block_length)
            0
            (begin n prompt_ids cfg)
          ≡ ok (going r))
        × (r.shared_x ≡ shared_x)
        × (1 ≤ cfg.gen_length / cfg.block_length)
  unfolding run_round
  run_round-eq-finished n n' model moment prompt_ids cfg shared_x published run =
      elim (Option-cases n.round_mgr.active_round) [
        | inl e ↦ absurd (ground arith)
        | inr (state, e) ↦
            let a = round_args n state model moment prompt_ids cfg in
            let blocks =
              run_blocks torch iter a (cfg.gen_length / cfg.block_length) 0
                (begin n prompt_ids cfg) in
            let runs : (blocks >>= λ progress. ok (finish a progress))
                ≡ ok (finished n' shared_x published) =
              ground arith in
            let (progress, some_, ends) =
              >>=-eq-ok blocks (λ progress. ok (finish a progress)) runs in
            let (r, is_going, same) = finish-eq-finished a progress n' shared_x published cc in
            (state, r, cc, same, ground arith)
      ]

  -- Whatever the other participants send, a round that `run_round` finishes has a token in the
  -- shared state for the prompt and for each position of each block, if the stop detector must not
  -- stop before the end of the generation, if there is at least one step for each block, and if the
  -- model never guesses the mask.
  pub run_round-completes :
      (n n' : SwarmNode F) (model : Row ℕ → Row (Row F)) (moment : ℕ → ℕ → Moment F)
      (prompt_ids : List Token) (cfg : GenConfig F) (shared_x : Dict Position Token)
      (published : List (MsgType × Payload F))
      → run_round torch iter n model moment prompt_ids cfg ≡ ok (finished n' shared_x published)
      → cfg.gen_length ≤ cfg.stop_cfg.min_gen_length
      → cfg.gen_length / cfg.block_length ≤ cfg.steps
      → ((l : Row F) → torch.argmax l ≢ cfg.step_cfg.mask_id)
      → (pos : ℕ) → pos < length prompt_ids + cfg.gen_length / cfg.block_length * cfg.block_length
      → lookup pos shared_x ≢ none
  unfolding round_args
  run_round-completes n n' model moment prompt_ids cfg shared_x published run long many guess pos
        lt =
      let (state, r, blocks, same, some_block) =
        run_round-eq-finished n n' model moment prompt_ids cfg shared_x published run in
      let a = round_args n state model moment prompt_ids cfg in
      let (_, (shared, _)) =
        run_blocks-IsHeld torch laws iter law a (alone n state model moment prompt_ids cfg) long
          guess (cfg.gen_length / cfg.block_length) 0 (begin n prompt_ids cfg) r blocks
          (div-is_pos cfg.steps (cfg.gen_length / cfg.block_length) some_block many)
          (begin-IsHeld n state model moment prompt_ids cfg)
          (begins n state model moment prompt_ids cfg) in
      λ miss. ground (arith, shared pos, div-mul-le_self cfg.gen_length cfg.block_length)
