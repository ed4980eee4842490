-- ===== src/Pool/Affinity.antt =====
-- pool/task_multi_processor.h: the processors that the constructor binds the workers to. `cores` is
-- what `hardware_concurrency` answers, 0 where it cannot tell.
use vectro.Common.{
  ℕ, zero, suc, ◌+◌, ◌%◌, ◌<◌, ◌≤◌, ◌≡◌, ◌∙◌, ap, true, Option, none, some, List, [], ◌∷◌, nat_beq,
  if◌then◌else◌, get_elem?, arith,
}
use vectro.Pool.{TaskProcessorConfig}

pub data Binding : Type 0 where
  pins : (cpu : ℕ) → Binding
  -- `thread_affinity_` is called with the worker's place
  asks : (fn id : ℕ) → Binding
  divides_by_zero : Binding

abbrev default_affinity : (cores id : ℕ) → Binding
default_affinity cores id = if nat_beq cores 0 then divides_by_zero else pins (id % cores)

abbrev bind_one : (cores : ℕ) → Option ℕ → (id : ℕ) → Binding
bind_one cores none id = default_affinity cores id
bind_one cores (some fn) id = asks fn id

-- `n` workers from the place `id` on
bind_from : (cores : ℕ) → Option ℕ → (n id : ℕ) → List Binding
bind_from cores affinity zero id = []
bind_from cores affinity (suc n) id =
    bind_one cores affinity id ∷ bind_from cores affinity n (suc id)

bind_workers : (cores : ℕ) → Option ℕ → TaskProcessorConfig → List Binding
unfolding bind_from
bind_workers cores affinity cfg =
    if cfg.bind_threads then bind_from cores affinity cfg.num_threads 0 else []

get_elem?-bind_from :
    (cores : ℕ) (affinity : Option ℕ) (n id i : ℕ)
    → i < n
    → get_elem? (bind_from cores affinity n id) i ≡ some (bind_one cores affinity (id + i))
unfolding bind_from
get_elem?-bind_from cores affinity zero id i lt = absurd (omega (arith, lt))
get_elem?-bind_from cores affinity (suc n) id zero lt =
    ap (λ j. some (bind_one cores affinity j)) (omega arith)
get_elem?-bind_from cores affinity (suc n) id (suc i) lt =
    get_elem?-bind_from cores affinity n (suc id) i (omega (arith, lt))
    ∙ ap (λ j. some (bind_one cores affinity j)) (omega arith)

-- In the constructor, where `thread_affinity_` is not set yet and the number of processors is known,
-- each worker of a pool that binds its threads is pinned to the processor of its place, modulo their
-- number.
get_elem?-bind_workers :
    (cores i : ℕ) (cfg : TaskProcessorConfig)
    → 1 ≤ cores
    → cfg.bind_threads ≡ true
    → i < cfg.num_threads
    → get_elem? (bind_workers cores none cfg) i ≡ some (pins (i % cores))
unfolding bind_workers
get_elem?-bind_workers cores i cfg pos b lt =
    rw b (get_elem?-bind_from cores none cfg.num_threads 0 i lt ∙ ground (arith, pos))
