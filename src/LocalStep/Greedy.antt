-- ===== src/LocalStep/Greedy.antt =====
-- Which masks a step commits first, and what becomes of a guess of EOS that is not trusted.
use ded_swarm.Base.{nat_eq}
use ded_swarm.Float.{Float}
use ded_swarm.Torch.{Torch}
