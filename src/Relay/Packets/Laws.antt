-- ===== src/Relay/Packets/Laws.antt =====
-- No line of a packet is split over two datagrams.
use influxdb_relay.Base.{
  ℕ, String, Bool, true, Option, none, some, List, [], ◌∷◌, ◌++◌, ◌≡◌, ◌==◌, ◌≤◌, length, refl, sym,
  ap, ◌∙◌, All,
}
use influxdb_relay.Relay.Buffer.{Bytes}
use influxdb_relay.Relay.Serve.{Libraries, print_points}
use influxdb_relay.Relay.Udp.{Outcome, done, too_large, failed}
use influxdb_relay.Relay.Udp.Laws.{joined, joined-snoc, IsCut, Posts, post-Posts}
use influxdb_relay.Relay.Packets.{UdpBackend, post_each, post_points, post_packet}

-- Whether bytes are whole lines: none, or the last is a line feed.
unfoldable pub ends_line : Bytes → Bool
ends_line [] = true
ends_line (x ∷ []) = x == 10
ends_line (x ∷ y ∷ ys) = ends_line (y ∷ ys)

ends_line-append :
    (xs : Bytes) (y : ℕ) (ys : Bytes) → ends_line (xs ++ (y ∷ ys)) ≡ ends_line (y ∷ ys)
unfolding ends_line
ends_line-append [] y ys = refl
ends_line-append (x ∷ []) y ys = refl
ends_line-append (x ∷ z ∷ xs) y ys = ends_line-append (z ∷ xs) y ys

-- The end of whole lines is whole lines.
ends_line-suffix : (xs ys : Bytes) → ends_line (xs ++ ys) ≡ true → ends_line ys ≡ true
unfolding ends_line
ends_line-suffix xs [] h = refl
ends_line-suffix xs (y ∷ ys) h = sym (ends_line-append xs y ys) ∙ h

ends_line-lf : (ys : Bytes) → ends_line ys ≡ true → ends_line (10 ∷ ys) ≡ true
unfolding ends_line
ends_line-lf [] h = refl
ends_line-lf (y ∷ ys) h = h

module _ {Point : Type 0} (libs : Libraries Point) where
  ends_line-print_points :
      (precision : String) (points : List Point)
      → ends_line (print_points libs precision points) ≡ true
  unfolding print_points ends_line
  ends_line-print_points precision [] = refl
  ends_line-print_points precision (p ∷ ps) =
      ends_line-append (libs.print precision p) 10 (print_points libs precision ps)
      ∙ ends_line-lf (print_points libs precision ps) (ends_line-print_points precision ps)

-- A datagram within the MTU that is made of whole lines.
abbrev pub IsWhole : ℕ → Bytes → Type 0
IsWhole mtu d = (length d ≤ mtu) × (ends_line d ≡ true)

cut-IsWhole : (mtu : ℕ) (d : Bytes) → IsCut mtu d → IsWhole mtu d
unfolding ends_line
cut-IsWhole mtu d h = (h.0, ap ends_line h.1.1 ∙ ends_line-append h.1.0 10 [])

cuts-IsWhole : (mtu : ℕ) (ds : List Bytes) → All (IsCut mtu) ds → All (IsWhole mtu) ds
cuts-IsWhole mtu [] h = tt
cuts-IsWhole mtu (d ∷ ds) h = (cut-IsWhole mtu d h.0, cuts-IsWhole mtu ds h.1)

All-IsWhole-snoc :
    (mtu : ℕ) (ds : List Bytes) (d : Bytes)
    → All (IsWhole mtu) ds
    → IsWhole mtu d
    → All (IsWhole mtu) (ds ++ (d ∷ []))
All-IsWhole-snoc mtu [] d h w = (w, tt)
All-IsWhole-snoc mtu (e ∷ ds) d h w = (h.0, All-IsWhole-snoc mtu ds d h.1 w)

-- What one backend is sent: whole lines from the start of the packet, and all of it where the call is done.
abbrev pub SendsLines : ℕ → Bytes → Option (List Bytes × Outcome) → Type 0
SendsLines mtu out none = ⊥
SendsLines mtu out (some (sent, done)) = All (IsWhole mtu) sent × (joined sent ≡ out)
SendsLines mtu out (some (sent, too_large)) =
    All (IsWhole mtu) sent × ((rest : Bytes) × (joined sent ++ rest ≡ out))
SendsLines mtu out (some (sent, failed)) =
    All (IsWhole mtu) sent × ((rest : Bytes) × (joined sent ++ rest ≡ out))

Posts-SendsLines :
    (mtu : ℕ) (out : Bytes) (o : Option (List Bytes × Outcome))
    → ends_line out ≡ true
    → Posts mtu out o
    → SendsLines mtu out o
Posts-SendsLines mtu out none w h = h
Posts-SendsLines mtu out (some (sent, done)) w (init, last, e, j, cut, fits) =
    let whole : ends_line (joined init ++ last) ≡ true =
      ap ends_line (sym (joined-snoc init last) ∙ ap joined (sym e) ∙ j) ∙ w in
    (
      rw e (
          All-IsWhole-snoc mtu init last (cuts-IsWhole mtu init cut)
            (fits, ends_line-suffix (joined init) last whole)),
      j,
    )
Posts-SendsLines mtu out (some (sent, too_large)) w (rest, e, cut, over, no_end) =
    (cuts-IsWhole mtu sent cut, (rest, e))
Posts-SendsLines mtu out (some (sent, failed)) w (rest, e, cut) =
    (cuts-IsWhole mtu sent cut, (rest, e))

-- Every backend is served, by its own MTU.
abbrev pub EachSends : Bytes → List UdpBackend → List (Option (List Bytes × Outcome)) → Type 0
EachSends out [] [] = Unit
EachSends out (b ∷ bs) (o ∷ os) = SendsLines b.mtu out o × EachSends out bs os
EachSends out bs os = ⊥

post_each-EachSends :
    (backends : List UdpBackend) (out : Bytes)
    → ends_line out ≡ true
    → EachSends out backends (post_each backends out)
unfolding post_each
post_each-EachSends [] out w = tt
post_each-EachSends (b ∷ bs) out w =
    (Posts-SendsLines b.mtu out _ w (post-Posts b.send b.mtu out), post_each-EachSends bs out w)

-- A packet that parses is printed, a line for each point, and every backend, whatever becomes of the others, is
-- sent datagrams of whole lines within its MTU, which are the printed packet from its start, and all
-- of it where its call is done.
pub post_packet-EachSends :
    {Point : Type 0} (libs : Libraries Point) (backends : List UdpBackend) (precision : String)
    (payload : Bytes) (points : List Point)
    → libs.parse payload precision ≡ some points
    → EachSends
        (print_points libs precision points)
        backends
        (post_packet libs backends precision payload)
unfolding post_packet post_points
post_packet-EachSends libs backends precision payload points e = rw e (
    post_each-EachSends backends (print_points libs precision points)
      (ends_line-print_points libs precision points))
