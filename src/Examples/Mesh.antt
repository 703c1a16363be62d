-- ===== src/Examples/Mesh.antt =====
-- The policy compiler on a mesh of two nodes.
use space.Prelude.{ℕ, ◌*◌, ◌/◌, [], ◌∷◌, ltb, leb}
use space.Scaling.{metro, geo, local, zone, ScalingPolicy, MeshState}
use space.Scaling.Compile.{Floats}

-- Hundredths of a percent in place of floating-point numbers.
abbrev floats : Floats ℕ
floats = record {
  percent = λ used total. used * 10000 / total;
  normalized = λ threshold. threshold;
  zero_percent = 0;
  half = 5000;
  most = 8000;
  below = ltb;
  at_least = λ a b. leb b a;
}

-- A node in the local metro zone and one in a region far away.
abbrev mesh : MeshState
mesh = record {
  nodes =
      (1, record { zone_id = metro (97 ∷ []); available_bytes = 20000000; used_bytes = 5 })
      ∷ (2, record { zone_id = geo (98 ∷ []); available_bytes = 30000000; used_bytes = 0 })
      ∷ [];
  local_zone = metro (97 ∷ []);
}

abbrev strict : ScalingPolicy
strict = record { rpo = 0; latency_target = 1000000; sovereignty = zone }

abbrev homebound : ScalingPolicy
homebound = record { rpo = 0; latency_target = 1000000; sovereignty = local }
