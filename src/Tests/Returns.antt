-- ===== src/Tests/Returns.antt =====
-- That a run and the command return, and that the run succeeds, at the fixtures.
use fin_amor_s_ideal_udp_fiu.Base.{
  ◌+◌, ◌<◌, ◌≤◌, ◌≡◌, ◌≢◌, ◌⊎◌, sym, refl, inl, inr, ℕ, replicate, length-replicate, ◌∙◌, Bytes, [],
  ◌∷◌, length, arith, some, false,
}
use fin_amor_s_ideal_udp_fiu.Base
use fin_amor_s_ideal_udp_fiu.Error.{ok, DoesNotPanic}
use fin_amor_s_ideal_udp_fiu.FilePath.{same_path}
use fin_amor_s_ideal_udp_fiu.Sender.Capacity.{IsGaloisEight}
use fin_amor_s_ideal_udp_fiu.Session.Next.{IsHealthy, Holds}
use fin_amor_s_ideal_udp_fiu.Protocol.Layout.{shard_size}
use fin_amor_s_ideal_udp_fiu.Config.ParityRatio.{parity_shards}
use fin_amor_s_ideal_udp_fiu.Config.Types.{Args}
use fin_amor_s_ideal_udp_fiu.Session
use fin_amor_s_ideal_udp_fiu.Run.{run}
use fin_amor_s_ideal_udp_fiu.Run.NoPanic.{FitsMemory, run-DoesNotPanic}
use fin_amor_s_ideal_udp_fiu.Run.Success.{HasRoom, SealsShards, run_succeeds}
use fin_amor_s_ideal_udp_fiu.Main.{main}
use fin_amor_s_ideal_udp_fiu.Main.Status.{IsReported, main-IsReported}
use fin_amor_s_ideal_udp_fiu.Tests.Fixtures.{
  config-IsValid, frame_read, frame-IsFrame, key, key_path, image_path, frame, os, rng,
  rng-IsRandom, cipher, cipher-IsChaCha, opener, codec, codec-IsReedSolomon, config,
}

fits_of_frame :
    (frame' : Bytes) → ok frame ≡ ok frame' → length frame' + shard_size ≤ Base.isize_max
fits_of_frame frame' same = ground arith

input_fits : FitsMemory config.input (Session.next (Session.new config.key_path) os).1
input_fits frame' read = fits_of_frame frame' (sym frame_read ∙ read)

run-DoesNotPanic_example : DoesNotPanic (run cipher codec rng config os).0
run-DoesNotPanic_example =
    run-DoesNotPanic cipher opener cipher-IsChaCha codec codec-IsReedSolomon rng rng-IsRandom config
      config-IsValid (omega arith) (omega arith) os input_fits

abbrev args : Args
args = record {
  target = (192, 168, 1, 7);
  wake_at = 3600;
  key_file = key_path;
  image = some image_path;
  parity_ratio = 15;
  port = 5050;
  delay_us = 500;
  chaos_burst = 6;
  chaos_drop = 0;
  chaos_shuffle = false;
}

main-IsReported_example : IsReported (main cipher codec rng args os).0
main-IsReported_example =
    main-IsReported cipher opener cipher-IsChaCha codec codec-IsReedSolomon rng rng-IsRandom args os
      (omega arith) (omega arith) input_fits

cipher-SealsShards : SealsShards cipher
cipher-SealsShards k nonce aad buffer size = (buffer, replicate 16 9, refl)

codec-IsGaloisEight : (d p : ℕ) → IsGaloisEight codec d p
codec-IsGaloisEight d p = record {
  makes = λ some_data some_parity within. (tt, ground arith);
  fills = λ size c shards made count some_bytes sizes. (shards, refl);
}

key_content : os.files key_path ≡ some key
unfolding same_path
key_content = refl

counter : Holds (Session.new key_path) os 41
unfolding Session.new same_path
counter = refl

healthy : IsHealthy (Session.new key_path) os
healthy = record { readable = refl; writable = refl }

frame_room : HasRoom config frame
unfolding parity_shards
frame_room = inl (omega arith)

run_succeeds_example : (run cipher codec rng config os).0 ≡ ok tt
run_succeeds_example =
    run_succeeds cipher opener cipher-IsChaCha cipher-SealsShards codec codec-IsReedSolomon rng
      rng-IsRandom config config-IsValid (omega arith) (omega arith) os key frame refl key_content
      (length-replicate {A = ℕ} 32 7) healthy (inr (41, omega arith, counter)) refl refl frame_read
      frame-IsFrame (codec-IsGaloisEight _ _) frame_room (λ n. refl)
