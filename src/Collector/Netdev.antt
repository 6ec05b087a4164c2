-- ===== src/Collector/Netdev.antt =====
-- src/collector/unix/netdev.rs: the counters of each network device that the filter lets through.
use ferrometer.Prelude.{ℕ, List, [], ◌∷◌, map, Bool, if◌then◌else◌}
use ferrometer.Prelude.Text.{Text, codes}
use ferrometer.Prelude.Maps.{Map, text_ord, insert}
use ferrometer.Error.{collector, Foreign, map_err}
use ferrometer.Signal.{Labels, Metric, new_counter}
use ferrometer.Collector.Emit.{
  Floats, Emit, Collect, nothing, each, with_interned, collected, after_colon,
}

pub record DeviceStatus : Type 0 where
  pub recv_bytes : ℕ
  pub recv_packets : ℕ
  pub recv_errs : ℕ
  pub recv_drop : ℕ
  pub recv_fifo : ℕ
  pub recv_frame : ℕ
  pub sent_bytes : ℕ
  pub sent_packets : ℕ
  pub sent_errs : ℕ
  pub sent_drop : ℕ
  pub sent_fifo : ℕ
  pub sent_colls : ℕ
  pub sent_carrier : ℕ

abbrev pub counters : DeviceStatus → List (Text × ℕ)
counters status =
    (codes "node_network_receive_bytes_total", status.recv_bytes)
    ∷ (codes "node_network_receive_packets_total", status.recv_packets)
    ∷ (codes "node_network_receive_errs_total", status.recv_errs)
    ∷ (codes "node_network_receive_drop_total", status.recv_drop)
    ∷ (codes "node_network_receive_fifo_total", status.recv_fifo)
    ∷ (codes "node_network_receive_frame_total", status.recv_frame)
    ∷ (codes "node_network_transmit_bytes_total", status.sent_bytes)
    ∷ (codes "node_network_transmit_packets_total", status.sent_packets)
    ∷ (codes "node_network_transmit_errs_total", status.sent_errs)
    ∷ (codes "node_network_transmit_drop_total", status.sent_drop)
    ∷ (codes "node_network_transmit_fifo_total", status.sent_fifo)
    ∷ (codes "node_network_transmit_colls_total", status.sent_colls)
    ∷ (codes "node_network_transmit_carrier_total", status.sent_carrier)
    ∷ []

module _ {F : Type 0} (f : Floats F) (now : ℕ) where
  unfoldable pub device_counters : DeviceStatus → Labels → List (Metric F)
  unfolding new_counter codes
  device_counters status labels =
      map (λ row. new_counter row.0 (f.of row.1) labels now) (counters status)

  unfoldable pub device : (Text → Bool) → Text × DeviceStatus → Emit F
  unfolding device_counters insert codes
  device filter (name, status) =
      if filter name
      then with_interned (insert (codes "device") name []) (device_counters status)
      else nothing

  -- The devices in the order in which the `HashMap` is iterated.
  unfoldable pub collect : Foreign (Map Text DeviceStatus) → (Text → Bool) → Collect F
  unfolding device codes
  collect read filter =
      collected (map_err (λ e. collector (after_colon (codes "netdev") e)) read)
        (each (device filter))
