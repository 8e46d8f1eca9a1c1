-- ===== src/Model/Tests.antt =====
-- Two resident sequences of one tile with one attention layer, over four pages.
use tr_infer.Prelude.{
  ℕ, ◌≡◌, ◌≤◌, refl, true, false, none, some, List, [], ◌∷◌, arith, All-get_elem?,
}
use tr_infer.Model.Sequence.{
  TileState, Sequence, Sequences, SequenceId, validate_sequence, allocate_sequence,
  release_sequence, fork_sequence, free_slot, cleared, reset, with_table, physical_row,
}
use tr_infer.Model.Sequence.PagePool.{done, new_pages, take_page}
use tr_infer.Model.Sequence.Prepare.{prepare_sequence, extend, is_shared, grow, unshare, then_grow}
use tr_infer.Model.Sequence.Prepare
use tr_infer.Model.Sequence.Valid.{IsValid, validate_sequence-Found}
use tr_infer.Model.Sequence.Rows.{
  enabled, enabled-IsValid, allocate_sequence-IsValid, first_slots, physical_row_injective,
}
use tr_infer.Model.Sequence.Lifecycle.{ReleaseOutcome, release_sequence_lem}
use tr_infer.Model.Sequence.Fork.{ForkOutcome, fork_sequence_lem}
use tr_infer.Model.Sequence.Preparation.{
  PrepareOutcome, prepare_sequence_lem, prepare_sequence-IsValid,
}
use tr_infer.Model.Sequence.Batch.{BatchInput, admit_batch}
use tr_infer.Model.Sequence.Admit.{InContext, AdmitOutcome, admit_batch_lem}

abbrev pub tile : TileState ℕ
tile = record {
  gdn = none ∷ [];
  attn = some (record { pages = []; ik_pooled = []; ik_raw = 5 ∷ [] }) ∷ [];
  ple_hist = 7 ∷ [];
}

abbrev pub none_live : Sequences ℕ ℕ
none_live = enabled ((tile ∷ []) ∷ (tile ∷ []) ∷ []) (10 ∷ 11 ∷ 12 ∷ 13 ∷ []) 256

pub none_live-IsValid : IsValid none_live
unfolding first_slots
none_live-IsValid = enabled-IsValid _ _ 256 (omega arith)

abbrev one_live : Sequences ℕ ℕ
one_live = (allocate_sequence 0 none_live).0

one_live-IsValid : IsValid one_live
one_live-IsValid = allocate_sequence-IsValid 0 none_live none_live-IsValid

abbrev pub first : SequenceId
first = record { slot = 0; generation = 1 }

release_sequence_lem_example : ReleaseOutcome one_live first (release_sequence one_live first)
release_sequence_lem_example = release_sequence_lem one_live first one_live-IsValid

fork_sequence_lem_example : ForkOutcome one_live first (fork_sequence 0 one_live first)
unfolding allocate_sequence free_slot enabled first_slots cleared reset
fork_sequence_lem_example =
    fork_sequence_lem 0 one_live first (((false ∷ []), (true ∷ [])) ∷ []) one_live-IsValid
      (refl, (refl, tt))

prepare_sequence_lem_example : PrepareOutcome one_live first 70 (prepare_sequence one_live first 70)
prepare_sequence_lem_example = prepare_sequence_lem one_live first 70 one_live-IsValid

-- 70 rows take two pages.
abbrev two_pages : Sequence ℕ
two_pages = record {
  generation = 1;
  live = true;
  tiles =
      record {
        gdn = none ∷ [];
        attn = some (record { pages = 0 ∷ 1 ∷ []; ik_pooled = []; ik_raw = 0 ∷ [] }) ∷ [];
        ple_hist = 0 ∷ [];
      }
      ∷ [];
  host = record { n_past = 0; prev_tokens = []; rope_delta = 0; extra = [] };
  pages = 0 ∷ 1 ∷ [];
}

abbrev pub prepared : Sequences ℕ ℕ
prepared = record {
  slots =
      two_pages
      ∷ record {
        generation = 0;
        live = false;
        tiles = tile ∷ [];
        host = record { n_past = 0; prev_tokens = []; rope_delta = 0; extra = [] };
        pages = [];
      }
      ∷ [];
  pages = record { refs = 1 ∷ 1 ∷ 0 ∷ 0 ∷ []; free = 2 ∷ 3 ∷ [] };
  kv = 10 ∷ 11 ∷ 12 ∷ 13 ∷ [];
  ctx = 256;
}

prepare_two : prepare_sequence one_live first 70 ≡ some (prepared, done tt)
unfolding allocate_sequence free_slot enabled first_slots cleared reset prepare_sequence with_table
    new_pages validate_sequence extend is_shared grow take_page unshare then_grow Prepare.prepared
prepare_two = refl

pub prepared-IsValid : IsValid prepared
prepared-IsValid =
    prepare_sequence-IsValid one_live first 70 prepared (done tt) one_live-IsValid prepare_two

physical_row_injective_example : ◌≡◌ {A = ℕ} 65 65
unfolding physical_row
physical_row_injective_example =
    physical_row_injective prepared first two_pages 0 0 _ _ 65 65 65 prepared-IsValid
      (record { there = refl; live = refl; current = refl }) refl refl refl refl

-- Five tokens for the sequence.
abbrev batch : List BatchInput
batch = record { sequence = first; tokens = 1 ∷ 2 ∷ 3 ∷ 4 ∷ 5 ∷ []; logits = true } ∷ []

prepared-InContext : InContext prepared
prepared-InContext id s h =
    All-get_elem? (λ (t : Sequence ℕ). t.host.n_past ≤ 256) prepared.slots id.slot s
      (omega arith, (omega arith, tt)) (validate_sequence-Found prepared id s h).there

admit_batch_lem_example :
    AdmitOutcome 100 8 prepared prepared-IsValid batch (admit_batch 100 8 prepared batch)
admit_batch_lem_example =
    admit_batch_lem 100 8 prepared prepared-IsValid batch (omega arith) prepared-InContext
