-- ===== src/Sniffer/Config.antt =====
-- `NewSniffer` and its options. The handle that a device opens is of a type `H` of another library.
use zanarkand.Prelude.{arith, ◌≢◌, ℕ, ◌≡◌, refl, List, [], ◌∷◌}
use zanarkand.Prelude.Int.{ℤ, pos, negsuc}
use zanarkand.Prelude.Bytes.{Bytes}
use zanarkand.Error.{
  capture_handle, no_source, unknown_mode, text, wrapped, unknown_input, Outcome, ok, err, panic,
}
use zanarkand.Sniffer.{SnifferState, stopped}

pub record SnifferConfig : Type 0 where
  pub data_buf_size : ℤ
  pub err_buf_size : ℤ

abbrev pub default_config : SnifferConfig
default_config = record { data_buf_size = pos 200; err_buf_size = pos 1 }

pub data SnifferOption : Type 0 where
  with_data_buffer_size : ℤ → SnifferOption
  with_error_buffer_size : ℤ → SnifferOption

apply_option : SnifferOption → SnifferConfig → SnifferConfig
apply_option (with_data_buffer_size n) c = record c { data_buf_size = n }
apply_option (with_error_buffer_size n) c = record c { err_buf_size = n }

apply_options : List SnifferOption → SnifferConfig → SnifferConfig
apply_options [] c = c
apply_options (o ∷ os) c = apply_options os (apply_option o c)

-- The values that the mode is compared with.
pub data Mode : Type 0 where
  file pcap pfring afpacket : Mode
  other : Bytes → Mode

-- The functions of package devices, for the filter and the sizes that `NewSniffer` gives them.
pub record Openers (H : Type 0) : Type 0 where
  pub open_file : Bytes → Outcome H
  pub open_pcap : Bytes → Outcome H
  pub open_pf_ring : Bytes → Outcome H
  pub open_af_packet : Bytes → Outcome H

pub record NewSniffer (H : Type 0) : Type 0 where
  pub state : SnifferState
  pub data_capacity : ℕ
  pub err_capacity : ℕ
  pub handle : H

module _ {H : Type 0} (dev : Openers H) where
  open_mode : Mode → Bytes → Outcome H
  open_mode file src = dev.open_file src
  open_mode pcap src = dev.open_pcap src
  open_mode pfring src = dev.open_pf_ring src
  open_mode afpacket src = dev.open_af_packet src
  open_mode (other m) src = err (unknown_input (text (unknown_mode m)))

  opened : ℕ → ℕ → Outcome H → Outcome (NewSniffer H)
  opened d e (ok h) =
      ok (record { state = stopped; data_capacity = d; err_capacity = e; handle = h })
  opened d e (err x) = err (wrapped capture_handle x)
  opened d e panic = panic

  with_source : ℕ → ℕ → Mode → Bytes → Outcome (NewSniffer H)
  with_source d e m [] = err (text no_source)
  with_source d e m src = opened d e (open_mode m src)

  -- `make(chan T, n)` panics where n is negative.
  with_channels : ℤ → ℤ → Mode → Bytes → Outcome (NewSniffer H)
  with_channels (pos d) (pos e) m src = with_source d e m src
  with_channels _ _ m src = panic

  unfoldable pub new_sniffer : Mode → Bytes → List SnifferOption → Outcome (NewSniffer H)
  unfolding apply_options apply_option with_channels with_source opened open_mode
  new_sniffer m src opts =
      let c = apply_options opts default_config in
      with_channels c.data_buf_size c.err_buf_size m src

-- The last option of a kind wins, and the other kind is left alone.
pub last_data : List SnifferOption → ℤ → ℤ
last_data [] n = n
last_data (with_data_buffer_size k ∷ os) n = last_data os k
last_data (with_error_buffer_size k ∷ os) n = last_data os n

pub last_err : List SnifferOption → ℤ → ℤ
last_err [] n = n
last_err (with_data_buffer_size k ∷ os) n = last_err os n
last_err (with_error_buffer_size k ∷ os) n = last_err os k

apply_options-last :
    (os : List SnifferOption) (c : SnifferConfig)
    → apply_options os c ≡ record {
      data_buf_size = last_data os c.data_buf_size;
      err_buf_size = last_err os c.err_buf_size;
    }
unfolding apply_options apply_option last_data last_err
apply_options-last [] c = refl
apply_options-last (with_data_buffer_size k ∷ os) c =
    apply_options-last os (record c { data_buf_size = k })
apply_options-last (with_error_buffer_size k ∷ os) c =
    apply_options-last os (record c { err_buf_size = k })

-- Which device's function opened a handle on the source: there is one for each mode, and none for others.
pub data OpenedBy {H : Type 0} (dev : Openers H) (src : Bytes) (h : H) : Mode → Type 0 where
  from_file : dev.open_file src ≡ ok h → OpenedBy dev src h file
  from_pcap : dev.open_pcap src ≡ ok h → OpenedBy dev src h pcap
  from_pf_ring : dev.open_pf_ring src ≡ ok h → OpenedBy dev src h pfring
  from_af_packet : dev.open_af_packet src ≡ ok h → OpenedBy dev src h afpacket

-- What a sniffer is made with.
abbrev pub MadeWith : {H : Type 0} → ℤ → ℤ → Openers H → Mode → Bytes → NewSniffer H → Type 0
MadeWith d e dev m src n =
    (n.state ≡ stopped)
    × (pos n.data_capacity ≡ d)
    × (pos n.err_capacity ≡ e)
    × OpenedBy dev src n.handle m

module _ {H : Type 0} (dev : Openers H) where
  opened_made :
      (d e : ℕ) (o : Outcome H) (n : NewSniffer H)
      → opened dev d e o ≡ ok n
      → (n.state ≡ stopped)
        × (pos n.data_capacity ≡ pos d)
        × (pos n.err_capacity ≡ pos e)
        × (o ≡ ok n.handle)
  unfolding opened
  opened_made d e (ok h) n q = ground arith
  opened_made d e (err x) n q = cc
  opened_made d e panic n q = cc

  open_mode-OpenedBy :
      (m : Mode) (src : Bytes) (h : H) → open_mode dev m src ≡ ok h → OpenedBy dev src h m
  unfolding open_mode
  open_mode-OpenedBy file src h e = from_file e
  open_mode-OpenedBy pcap src h e = from_pcap e
  open_mode-OpenedBy pfring src h e = from_pf_ring e
  open_mode-OpenedBy afpacket src h e = from_af_packet e
  open_mode-OpenedBy (other m) src h e = cc

  with_channels_made :
      (d e : ℤ) (m : Mode) (src : Bytes) (n : NewSniffer H)
      → with_channels dev d e m src ≡ ok n
      → MadeWith d e dev m src n × (src ≢ [])
  unfolding with_channels with_source
  with_channels_made (pos d) (pos e) m [] n q = cc
  with_channels_made (pos d) (pos e) m (b ∷ src) n q =
      let (s, dc, ec, o) = opened_made d e (open_mode dev m (b ∷ src)) n q in
      ((s, dc, ec, open_mode-OpenedBy m (b ∷ src) n.handle o), λ k. cc)
  with_channels_made (pos d) (negsuc e) m src n q = cc
  with_channels_made (negsuc d) e m src n q = cc

-- A sniffer that is made is stopped, its channels hold as much as the last option of their kind says,
-- 200 packets and 1 error where there is none, its handle is what the function of the one device that the
-- mode names has opened on the source, and the source has a name. No other mode makes a sniffer.
pub new_sniffer_lem :
    {H : Type 0} (dev : Openers H) (m : Mode) (src : Bytes) (opts : List SnifferOption)
    (n : NewSniffer H)
    → new_sniffer dev m src opts ≡ ok n
    → MadeWith (last_data opts (pos 200)) (last_err opts (pos 1)) dev m src n × (src ≢ [])
unfolding new_sniffer
new_sniffer_lem dev m src opts n =
    rw (apply_options-last opts default_config)
      (with_channels_made dev (last_data opts (pos 200)) (last_err opts (pos 1)) m src n)
