-- ===== src/Wake/Wire.antt =====
-- What `run` asks the sockets for.
use mathlib.Core.Path.{subst, sym}
use fog_agent.Prelude.{
  ◌=ᵗ◌, ◌≡◌, refl, inl, inr, Bool, Bool-cases, Option-cases, true, false, List, [], ◌∷◌, ◌++◌,
  Option, none, some, ◌==◌, if◌then◌else◌, length, take, All, Elem, Text, arith,
}
use fog_agent.Wake.{
  max_targets, Target, Report, Datagram, Sender, Log, magic_packet, parse_mac, parse_macs,
  parse_macs_from, member, Progress, send_one, send_each, send_all, wake_one, wake_each, run,
}

-- One text behind the other.
abbrev joined : List Text → Text
joined [] = []
joined (t ∷ ts) = t ++ joined ts

-- The payload on the wire: six bytes of 0xFF and sixteen copies of an address.
abbrev pub payload_of : Text → Text
payload_of m =
    255
    ∷ 255
    ∷ 255
    ∷ 255
    ∷ 255
    ∷ 255
    ∷ joined (m ∷ m ∷ m ∷ m ∷ m ∷ m ∷ m ∷ m ∷ m ∷ m ∷ m ∷ m ∷ m ∷ m ∷ m ∷ m ∷ [])

magic_packet_lem : (mac : Text) → magic_packet mac ≡ payload_of mac
unfolding magic_packet
magic_packet_lem mac = refl

All-append : {A : Type 0} (P : A → Type 0) (xs ys : List A) → All P xs → All P ys → All P (xs ++ ys)
All-append P [] ys h k = k
All-append P (x ∷ xs) ys (h, hs) k = (h, All-append P xs ys hs k)

All-Elem_within :
    {A : Type 0} (xs ys : List A) → ((a : A) → Elem a ys → Elem a xs) → All (λ x. Elem x xs) ys
All-Elem_within xs [] f = tt
All-Elem_within xs (y ∷ ys) f = (f y (inl refl), All-Elem_within xs ys (λ a h. f a (inr h)))

module _ (trim : Text → Text) (parse : Text → Option Text) where
  -- An address of six bytes that one of the targets asks for.
  abbrev pub IsWoken : List Target → Text → Type 0
  IsWoken ts mac =
      (t : Target) × Elem t ts
      × ((raw : Text) × Elem raw t.macs × (parse (trim raw) ≡ some mac) × (length mac ≡ 6))

  -- A datagram to one of the addresses `bs` that wakes a machine of one of the targets.
  abbrev pub IsMagic : List Text → List Target → Datagram → Type 0
  IsMagic bs ts d = Elem d.0 bs × ((mac : Text) × IsWoken ts mac × (d.1 ≡ payload_of mac))

  parse_mac-some :
      (raw mac : Text)
      → parse_mac trim parse raw ≡ some mac
      → (parse (trim raw) ≡ some mac) × (length mac ≡ 6)
  unfolding parse_mac
  parse_mac-some raw mac h = elim (Option-cases (parse (trim raw))) [
    | inl e ↦ absurd (ground arith)
    | inr (m, e) ↦ elim (Bool-cases (length m == 6)) [
      | inl k ↦ ground arith
      | inr k ↦ absurd (ground arith)
    ]
  ]

  -- What holds of every address that a value stands for holds of those that are kept.
  parse_macs_from-All :
      (P : Text → Type 0) (out : List Text) (bad : Text) (raws : List Text)
      → All P out
      → ((raw mac : Text) → Elem raw raws → parse_mac trim parse raw ≡ some mac → P mac)
      → All P (parse_macs_from trim parse out bad raws).0
  unfolding parse_macs_from
  parse_macs_from-All P out bad [] h f = h
  parse_macs_from-All P out bad (raw ∷ raws) h f =
      after (parse_mac trim parse raw) (λ mac e. f raw mac (inl refl) e)
        (λ out' bad' h'. parse_macs_from-All P out' bad' raws h' (λ r m k. f r m (inr k)))
    where
      kept : (mac : Text) (b : Bool) → P mac → All P (if b then out else out ++ mac ∷ [])
      kept mac true k = h
      kept mac false k = All-append P out (mac ∷ []) h (k, tt)

      after :
          (o : Option Text)
          → ((mac : Text) → o ≡ some mac → P mac)
          → ((out' : List Text) (bad' : Text)
              → All P out'
              → All P (parse_macs_from trim parse out' bad' raws).0)
          → let bad' = if bad =ᵗ [] then trim raw else bad in
            let end : List Text × Text = elim o [
              | none ↦ parse_macs_from trim parse out bad' raws
              | some mac ↦
                  parse_macs_from trim parse
                    (if member mac out then out else out ++ mac ∷ [])
                    bad
                    raws
            ] in
            All P end.0
      after none k rest = rest out (if bad =ᵗ [] then trim raw else bad) h
      after (some mac) k rest =
          rest (if member mac out then out else out ++ mac ∷ []) bad
            (kept mac (member mac out) (k mac refl))

module _ (sender : Sender) where
  send_one_log :
      (packet : Text) (g : Progress) (dst : Text)
      → (send_one sender packet g dst).log ≡ g.log ++ (dst, packet) ∷ []
  unfolding send_one
  send_one_log packet g dst = ground arith

  module _ (P : Datagram → Type 0) where
    send_each-All :
        (packet : Text) (g : Progress) (dsts : List Text)
        → All P g.log
        → All (λ dst. P (dst, packet)) dsts
        → All P (send_each sender packet g dsts).log
    unfolding send_each
    send_each-All packet g [] h k = h
    send_each-All packet g (dst ∷ dsts) h (k, ks) =
        send_each-All packet (send_one sender packet g dst) dsts
          (subst (λ l. All P l) (sym (send_one_log packet g dst))
            (All-append P g.log ((dst, packet) ∷ []) h (k, tt)))
          ks

    send_all-All :
        (g : Progress) (macs dsts : List Text)
        → All P g.log
        → All (λ mac. All (λ dst. P (dst, magic_packet mac)) dsts) macs
        → All P (send_all sender g macs dsts).log
    unfolding send_all
    send_all-All g [] dsts h k = h
    send_all-All g (mac ∷ macs) dsts h (k, ks) =
        send_all-All (send_each sender (magic_packet mac) g dsts) macs dsts
          (send_each-All (magic_packet mac) g dsts h k) ks

  module _ (trim : Text → Text) (parse : Text → Option Text) where
    -- What one address sends is of the kind asked for.
    IsMagic-each :
        (bs dsts : List Text) (ts : List Target) (mac : Text)
        → IsWoken trim parse ts mac
        → All (λ d. Elem d bs) dsts
        → All (λ dst. IsMagic trim parse bs ts (dst, magic_packet mac)) dsts
    IsMagic-each bs [] ts mac h k = tt
    IsMagic-each bs (d ∷ ds) ts mac h (k, ks) =
        ((k, (mac, h, magic_packet_lem mac)), IsMagic-each bs ds ts mac h ks)

    IsMagic-All :
        (bs : List Text) (ts : List Target) (macs : List Text)
        → All (IsWoken trim parse ts) macs
        → All (λ mac. All (λ dst. IsMagic trim parse bs ts (dst, magic_packet mac)) bs) macs
    IsMagic-All bs ts [] h = tt
    IsMagic-All bs ts (mac ∷ macs) (h, hs) =
        (IsMagic-each bs bs ts mac h (All-Elem_within bs bs (λ a k. k)), IsMagic-All bs ts macs hs)

    wake_one-IsMagic :
        (log : Log) (t : Target) (bs : List Text) (ts : List Target)
        → Elem t ts
        → All (IsMagic trim parse bs ts) log
        → All (IsMagic trim parse bs ts) (wake_one sender trim parse log t bs).0
    unfolding wake_one parse_macs
    wake_one-IsMagic log t bs ts i h =
        let macs = (parse_macs_from trim parse [] [] t.macs).0 in
        let g = send_all sender (record { log = log; count = 0; last = none }) macs bs in
        let woken =
          parse_macs_from-All trim parse (IsWoken trim parse ts) [] [] t.macs tt (λ raw mac k e.
            let (same, six) = parse_mac-some trim parse raw mac e in (t, i, (raw, k, same, six))) in
        ends _ _ _ _ (length macs == 0) (g.count == 0) (
          send_all-All (IsMagic trim parse bs ts) (record { log = log; count = 0; last = none })
            macs bs h (IsMagic-All bs ts macs woken))
      where
        ends :
            (a b c : Report) (l : Log) (p q : Bool)
            → All (IsMagic trim parse bs ts) l
            → let end : Log × Report = if p then (log, a) else if q then (l, b) else (l, c) in
              All (IsMagic trim parse bs ts) end.0
        ends a b c l true q k = h
        ends a b c l false true k = k
        ends a b c l false false k = k

    wake_each-IsMagic :
        (log : Log) (us : List Target) (bs : List Text) (ts : List Target)
        → ((t : Target) → Elem t us → Elem t ts)
        → All (IsMagic trim parse bs ts) log
        → All (IsMagic trim parse bs ts) (wake_each sender trim parse log us bs).0
    unfolding wake_each
    wake_each-IsMagic log [] bs ts f h = h
    wake_each-IsMagic log (t ∷ us) bs ts f h =
        wake_each-IsMagic (wake_one sender trim parse log t bs).0 us bs ts (λ u k. f u (inr k))
          (wake_one-IsMagic log t bs ts (f t (inl refl)) h)

    -- Every datagram that `run` asks the sockets for goes to one of the broadcast addresses, and
    -- carries six bytes of 0xFF and sixteen copies of an address of six bytes, which is the parse of
    -- one of the values of one of the first thirty-two targets.
    pub run-IsMagic :
        (targets : List Target)
        → All
            (IsMagic trim parse sender.broadcasts (take 32 targets))
            (run sender trim parse targets).0
    unfolding run
    run-IsMagic targets = ends _ _ _ sender.unreadable_interfaces (length sender.broadcasts == 0) (
        wake_each-IsMagic [] (take max_targets targets) sender.broadcasts (take 32 targets)
          (λ t k. k) tt)
      where
        ends :
            (a : Text → List Report) (b : List Report) (w : Log × List Report) (o : Option Text)
            (q : Bool)
            → All (IsMagic trim parse sender.broadcasts (take 32 targets)) w.0
            → let end : Log × List Report = elim o [
              | none ↦ if q then ([], b) else w
              | some e ↦ ([], a e)
            ] in
              All (IsMagic trim parse sender.broadcasts (take 32 targets)) end.0
        ends a b w (some e) q k = tt
        ends a b w none true k = tt
        ends a b w none false k = k
