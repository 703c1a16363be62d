-- ===== src/Examples/Tasks.antt =====
-- The asynchronous write on the bytes of Examples/Volumes, and segments that arrive out of order.
use space.Prelude.{
  ℕ, ◌≡◌, refl, false, none, some, Error, ok, err, crypto_failed, Exec, modify, List, [], ◌∷◌, ◌++◌,
  zero, suc, arith, length,
}
use space.Common.{Policy, segment_size, xts_aes256, is_enabled}
use space.Presets.{default_policy}
use space.Gc.{World}
use space.Compression.{
  compress_segment, try_compress, attempt_compress, adjusted_level_lz4, accept, entropy_skip_reason,
}
use space.Pipeline.Services.{Services}
use space.Pipeline.Write.{prepare, after_compress, sealed, after_seal, chunks}
use space.Pipeline.Async.{set_slot, new_coordinator, receive, drain}
use space.Pipeline.Async.Arrival.{Arrives, closed, sent, slots_of, commit_in_order}
use space.Pipeline.Async.Commit.{commit_and_note}
use space.Pipeline.Async.Write.{prepare_all, write_with, write_capsule_with_policy_async}
use space.Pipeline.Async.Schedule.{sent_of, write_async_in_order}
use space.Pipeline.Async.Abort.{write_async_aborts}
use space.Examples.Capsules.{services, two_capsules, encode_run, codec}
use space.Examples.Volumes.{after, prepared, prepare-after}

empty_after : (j : ℕ) → set_slot 0 none (slots_of (some prepared ∷ [])) j ≡ none
empty_after zero = refl
empty_after (suc j) = ground arith

arrived : Arrives 1 (slots_of (sent_of (ok prepared ∷ []))) ((0, prepared) ∷ [])
arrived =
    sent (slots_of (some prepared ∷ [])) 0 prepared [] (omega arith) refl
      (closed (set_slot 0 none (slots_of (some prepared ∷ []))) empty_after)

cut : chunks (length after) segment_size after ≡ after ∷ []
unfolding chunks
cut = refl

write_async_in_order_example :
    write_capsule_with_policy_async services 100 8 7 after default_policy
      ((0, prepared) ∷ [])
      two_capsules
    ≡ write_with services 100 8 7 after default_policy
        (commit_in_order (commit_and_note default_policy) (
          sent_of (prepare_all services default_policy (chunks (length after) segment_size after))))
        two_capsules
unfolding chunks
write_async_in_order_example =
    write_async_in_order services 100 8 7 after default_policy ((0, prepared) ∷ [])
      (rw prepare-after arrived) two_capsules

-- A cipher that refuses everything, and a policy that asks for it.
abbrev refusing : Services
refusing = record services { seal = λ hash bytes. err crypto_failed }

abbrev sealing : Policy
sealing = record default_policy { dedupe = false; encryption = xts_aes256 none }

refused : prepare refusing sealing after ≡ err crypto_failed
unfolding prepare after_compress sealed after_seal is_enabled compress_segment try_compress
    attempt_compress adjusted_level_lz4 accept entropy_skip_reason encode_run codec
refused = refl

write_async_aborts_example :
    (e' : Error) × (w' : World) × (write_capsule_with_policy_async refusing 100 8 7 after sealing []
        two_capsules
      ≡ (err e', w'))
    × (w'.nvram ≡ two_capsules.nvram)
    × (w'.registry.capsules ≡ two_capsules.registry.capsules)
    × (w'.registry.content_store ≡ two_capsules.registry.content_store)
    × (w'.registry.saved ≡ two_capsules.registry.saved)
unfolding chunks
write_async_aborts_example =
    write_async_aborts refusing 100 8 7 after sealing [] crypto_failed refl (rw refused refl)
      two_capsules

abbrev jot : ℕ → Exec (List ℕ) (Unit {0})
jot n = modify (λ seen. seen ++ n ∷ [])

reordered :
    (receive jot 3 ((2, 30) ∷ (0, 10) ∷ (1, 20) ∷ []) new_coordinator []).1 ≡ 10 ∷ 20 ∷ 30 ∷ []
unfolding receive drain
reordered = refl
