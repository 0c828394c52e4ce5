-- ===== src/Sender/Limits.antt =====
-- src/sender.rs and src/fec.rs: frames within the limit of the header's fields, but beyond that of the
-- erasure code.
use fin_amor_s_ideal_udp_fiu.Base.{String, ◌≤◌, ◌<◌, ◌≡◌, inl, inr, Bytes, arith, lt→ltb}
use fin_amor_s_ideal_udp_fiu.Error.{ok, err, fec}
use fin_amor_s_ideal_udp_fiu.Types.SessionId.{SessionId}
use fin_amor_s_ideal_udp_fiu.Types.RendezvousSecs.{RendezvousSecs}
use fin_amor_s_ideal_udp_fiu.Config.ParityRatio.{ParityRatio, IsPercent, parity_shards}
use fin_amor_s_ideal_udp_fiu.Fec.{ReedSolomon, reed_solomon_engine}
use fin_amor_s_ideal_udp_fiu.Fec.Engine.{IsReedSolomon, encode_too_many}
use fin_amor_s_ideal_udp_fiu.Sender.{FiudpSender, make_packets, send}
use fin_amor_s_ideal_udp_fiu.Sender.Shards.{u16_max, encode_parity}
use fin_amor_s_ideal_udp_fiu.Sender.Shards.Split.{
  IsFrame, data_count, total_count, parts_of, split_frame_cases,
}
use fin_amor_s_ideal_udp_fiu.Sender.Burst.{send-of_failure}
use fin_amor_s_ideal_udp_fiu.Sender.Transport.{Runtime}

module _ {Codec : Type 0} (rs : ReedSolomon Codec) (law : IsReedSolomon rs) (ratio : ParityRatio)
    (percent : IsPercent ratio) (frame : Bytes) (f : IsFrame frame)
    (within : total_count ratio frame ≤ u16_max) (beyond : 256 < total_count ratio frame)
    (with_parity : 0 < parity_shards ratio (data_count frame)) where
  encode_parity_refuses :
      (text : String) × (encode_parity (reed_solomon_engine rs) (parts_of ratio frame)
        ≡ err (fec text))
  unfolding encode_parity
  encode_parity_refuses =
      let (text, refused) =
        encode_too_many rs law (data_count frame) (parity_shards ratio (data_count frame))
          (parts_of ratio frame).slices beyond in
      (text, rw (lt→ltb 0 (parity_shards ratio (data_count frame)) with_parity) refused)

  module _ {W : Type 0} (rt : Runtime W) (s : FiudpSender W) (secs : RendezvousSecs)
      (id : SessionId) (w w' : W) (read : s.reader.read_all w ≡ (ok frame, w')) where
    -- With the production engine over an erasure code that refuses more than 256 shards, and with
    -- some parity at a ratio of at most 100 percent, a frame that fits in memory and has more than
    -- 256 and at most 65535 shards fails with a FEC error, with the state as the read left it.
    pub send_too_many :
        (text : String) × (send rt (record s { fec = reed_solomon_engine rs }) ratio secs id w
          ≡ (err (fec text), w'))
    unfolding make_packets
    send_too_many =
        let (text, refused) = encode_parity_refuses in
        elim (split_frame_cases ratio percent frame f) [
          | inl (small, split) ↦ (
            text,
            send-of_failure rt (record s { fec = reed_solomon_engine rs }) ratio secs id w w' frame
                read (fec text) (rw (split, refused)),
          )
          | inr (over, refusal) ↦ absurd (omega arith)
        ]
