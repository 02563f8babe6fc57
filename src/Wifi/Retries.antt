-- ===== src/Wifi/Retries.antt =====
-- How often the station tries to connect again.
use mstd.Prelude.{ℕ, ◌+◌, ◌-◌, ◌*◌, ◌≤◌, min, ◌≡◌, List, [], ◌∷◌, arith}
use mstd.Wifi.Events.{
  Wifi, Event, sta_start, sta_disconnected, ap_staconnected, ap_stadisconnected, other_event,
  sta_got_ip, max_retries, event_handler_wifi, event_handler_ip, handle, handle_all,
}

-- What a sequence of events asks for: starts, losses of the connection, and addresses.
abbrev pub starts : List Event → ℕ
starts [] = 0
starts (sta_start ∷ es) = starts es + 1
starts (sta_disconnected ∷ es) = starts es
starts (ap_staconnected ∷ es) = starts es
starts (ap_stadisconnected ∷ es) = starts es
starts (other_event ∷ es) = starts es
starts (sta_got_ip addr ∷ es) = starts es

abbrev pub losses : List Event → ℕ
losses [] = 0
losses (sta_start ∷ es) = losses es
losses (sta_disconnected ∷ es) = losses es + 1
losses (ap_staconnected ∷ es) = losses es
losses (ap_stadisconnected ∷ es) = losses es
losses (other_event ∷ es) = losses es
losses (sta_got_ip addr ∷ es) = losses es

abbrev pub addresses : List Event → ℕ
addresses [] = 0
addresses (sta_start ∷ es) = addresses es
addresses (sta_disconnected ∷ es) = addresses es
addresses (ap_staconnected ∷ es) = addresses es
addresses (ap_stadisconnected ∷ es) = addresses es
addresses (other_event ∷ es) = addresses es
addresses (sta_got_ip addr ∷ es) = addresses es + 1

module _ (inet_ntoa : ℕ → List ℕ) where
  -- While no address is given, from a count of at most ten retries, every start connects once, and every loss connects again until ten
  -- losses have been answered.
  pub connects-handle_all :
      (w : Wifi) (es : List Event)
      → w.s_retry_num ≤ max_retries
      → addresses es ≡ 0
      → let w' = handle_all inet_ntoa w es in
        (w'.connects ≡ w.connects + starts es + min (losses es) (max_retries - w.s_retry_num))
        × (w'.s_retry_num ≡ min (w.s_retry_num + losses es) max_retries)
  unfolding handle_all handle event_handler_wifi
  connects-handle_all w [] h a = omega arith
  connects-handle_all w (sta_start ∷ es) h a =
      let t = connects-handle_all (handle inet_ntoa w sta_start) es h a in omega (arith, t.0, t.1)
  connects-handle_all w (sta_disconnected ∷ es) h a =
      let w' = handle inet_ntoa w sta_disconnected in ground (arith, connects-handle_all w' es)
  connects-handle_all w (ap_staconnected ∷ es) h a = connects-handle_all w es h a
  connects-handle_all w (ap_stadisconnected ∷ es) h a = connects-handle_all w es h a
  connects-handle_all w (other_event ∷ es) h a = connects-handle_all w es h a
  connects-handle_all w (sta_got_ip addr ∷ es) h a = absurd (omega arith)

  -- Over any events at all, from a count of at most ten retries, the attempts stay within the starts
  -- and ten before the first and after each address.
  pub connects_bound :
      (w : Wifi) (es : List Event)
      → w.s_retry_num ≤ max_retries
      → let w' = handle_all inet_ntoa w es in
        (w'.connects + w.s_retry_num ≤ w.connects + starts es + max_retries * (addresses es + 1))
        × (w'.s_retry_num ≤ max_retries)
  unfolding handle_all handle event_handler_wifi event_handler_ip
  connects_bound w [] h = omega arith
  connects_bound w (sta_start ∷ es) h =
      let t = connects_bound (handle inet_ntoa w sta_start) es h in omega (arith, t.0, t.1)
  connects_bound w (sta_disconnected ∷ es) h =
      ground (arith, connects_bound (handle inet_ntoa w sta_disconnected) es)
  connects_bound w (ap_staconnected ∷ es) h = connects_bound w es h
  connects_bound w (ap_stadisconnected ∷ es) h = connects_bound w es h
  connects_bound w (other_event ∷ es) h = connects_bound w es h
  connects_bound w (sta_got_ip addr ∷ es) h =
      let t = connects_bound (handle inet_ntoa w (sta_got_ip addr)) es (omega arith) in
      omega (arith, t.0, t.1)
