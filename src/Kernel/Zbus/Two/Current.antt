-- ===== src/Kernel/Zbus/Two/Current.antt =====
-- What the subscriber of _07_two_messages_one_observer shows, against what was published.
use zephyr_samples.Base.{
  ℕ, suc, ◌+◌, ◌%◌, ◌^◌, ◌≤◌, ◌<◌, ◌≡◌, refl, ◌∙◌, ◌⊎◌, inl, inr, true, List, [], ◌∷◌, ◌++◌, Log,
  Env, Option, none, some, if◌then◌else◌, ℤ, pos, negsuc, is_zero, to_ℕ, ◌&&◌, arith, Bool-cases,
}
use zephyr_samples.Kernel.Zbus.{
  Channel, channel_1, channel_2, same, ZbusCall, zbus_chan_pub, zbus_chan_read, zbus_sub_wait,
  print_msg1, print_msg2, latest, is_taken, byte0, byte1, half0, half1,
}
use zephyr_samples.Kernel.Zbus.Two.{
  first, others, has_channel, PubPoint, publish1, publish2, pub_sleeping, SubPoint, waiting,
  reading, Threads, msg1_bytes, msg2_bytes, publish_step, to_channel, show, subscribe_step,
  notified, can_run,
}

-- How often the threads offered a message to a channel, how often it took one, and how many had been
-- offered with the last one that it took.
unfoldable pub offers : Channel → Log ZbusCall → ℕ
offers c [] = 0
offers c ((zbus_chan_pub d m, r) ∷ log) = if same d c then suc (offers c log) else offers c log
offers c ((e, r) ∷ log) = offers c log

unfoldable pub pubs : Channel → Log ZbusCall → ℕ
pubs c [] = 0
pubs c ((zbus_chan_pub d m, r) ∷ log) =
    if same d c && is_taken r then suc (pubs c log) else pubs c log
pubs c ((e, r) ∷ log) = pubs c log

unfoldable pub last_taken : Channel → Log ZbusCall → ℕ
last_taken c [] = 0
last_taken c ((zbus_chan_pub d m, r) ∷ log) =
    if same d c && is_taken r then suc (offers c log) else last_taken c log
last_taken c ((e, r) ∷ log) = last_taken c log

-- How often a channel was shown.
unfoldable pub shown : Channel → Log ZbusCall → ℕ
shown c [] = 0
shown c ((print_msg1 a b, r) ∷ log) = if same channel_1 c then suc (shown c log) else shown c log
shown c ((print_msg2 v i, r) ∷ log) = if same channel_2 c then suc (shown c log) else shown c log
shown c ((e, r) ∷ log) = shown c log

-- The number of the message that the last read of a channel with success gave.
unfoldable pub last_read : Channel → Log ZbusCall → Option ℕ
last_read c [] = none
last_read c ((zbus_chan_read d, r) ∷ log) =
    if same d c && is_zero r then some (last_taken c log) else last_read c log
last_read c ((e, r) ∷ log) = last_read c log

-- The fields of a structure that was never read may be anything.
abbrev pub IsMsg1 : Option ℕ → ℕ → ℕ → Type 0
IsMsg1 none major minor = Unit {0}
IsMsg1 (some n) major minor = (major ≡ 1) × (minor ≡ n % 2 ^ 8)

abbrev pub IsMsg2 : Option ℕ → ℕ → ℕ → Type 0
IsMsg2 none voltage current = Unit {0}
IsMsg2 (some n) voltage current = (voltage ≡ 220) × (current ≡ (10 + n) % 2 ^ 16)

-- Each line shows the message that the last read of its channel with success gave, by its number.
abbrev pub IsCurrent : Log ZbusCall → Type 0
IsCurrent [] = Unit {0}
IsCurrent ((print_msg1 major minor, r) ∷ log) =
    IsMsg1 (last_read channel_1 log) major minor × IsCurrent log
IsCurrent ((print_msg2 voltage current, r) ∷ log) =
    IsMsg2 (last_read channel_2 log) voltage current × IsCurrent log
IsCurrent ((e, r) ∷ log) = IsCurrent log

-- The bus: a wait gives the first channel of the queue, and a read that returns 0 the
-- last message of its channel.
unfoldable pub Bus : Env ZbusCall → Type 0
Bus env =
    (log : Log ZbusCall)
    → (to_channel (to_ℕ (env.result log zbus_sub_wait)) ≡ first (notified log))
      × ((c : Channel)
          → is_zero (env.result log (zbus_chan_read c)) ≡ true
          → env.bytes log (zbus_chan_read c) ≡ latest c log)

unfoldable pub image : Channel → ℕ → List ℕ
image channel_1 n = msg1_bytes 1 (n % 2 ^ 8)
image channel_2 n = msg2_bytes 220 ((10 + n) % 2 ^ 16)

unfoldable pub occurs : Channel → List Channel → ℕ
occurs c [] = 0
occurs c (d ∷ ds) = if same d c then suc (occurs c ds) else occurs c ds

unfoldable pub in_hand : Channel → SubPoint → ℕ
in_hand c waiting = 0
in_hand c (reading d) = if same d c then 1 else 0

abbrev pub Buffered : Channel → Option ℕ → List ℕ → Type 0
Buffered c none bs = Unit {0}
Buffered c (some n) bs = bs ≡ image c n

abbrev pub Kept : SubPoint → Threads → Log ZbusCall → Type 0
Kept sp s log =
    ((c : Channel) → (pubs c log ≡ 0) ⊎ (latest c log ≡ image c (last_taken c log)))
    × ((c : Channel) → shown c log + in_hand c sp + occurs c (notified log) ≤ pubs c log)
    × (s.minor ≡ offers channel_1 log % 2 ^ 8)
    × (s.current ≡ (10 + offers channel_2 log) % 2 ^ 16)
    × Buffered channel_1 (last_read channel_1 log) s.received_msg
    × Buffered channel_2 (last_read channel_2 log) s.received_msg2
    × IsCurrent log

is_zero-is_taken : (r : ℤ) → is_zero r ≡ true → is_taken r ≡ true
unfolding is_taken
is_zero-is_taken (pos n) h = refl
is_zero-is_taken (negsuc n) h = ground (arith, h)

occurs-append :
    (c d : Channel) (ds : List Channel)
    → occurs c (ds ++ d ∷ []) ≡ occurs c ds + (if same d c then 1 else 0)
unfolding occurs
occurs-append c d [] = ground arith
occurs-append c d (e ∷ es) = ground (arith, occurs-append c d es)

occurs-first :
    (c : Channel) (ds : List Channel)
    → has_channel ds ≡ true
    → (if same (first ds) c then 1 else 0) + occurs c (others ds) ≡ occurs c ds
unfolding occurs has_channel first others
occurs-first c [] h = ground (arith, h)
occurs-first c (d ∷ ds) h = ground arith

-- The halves of a structure of two uint16_t.
half0-msg2 : (v c : ℕ) → v < 2 ^ 16 → half0 (msg2_bytes v c) ≡ v
unfolding half0 byte0 byte1
half0-msg2 v c lt = omega (arith, lt)

half1-msg2 : (v c : ℕ) → c < 2 ^ 16 → half1 (msg2_bytes v c) ≡ c
unfolding half1 half0 byte0 byte1
half1-msg2 v c lt = omega (arith, lt)

line1 : (o : Option ℕ) (bs : List ℕ) → Buffered channel_1 o bs → IsMsg1 o (byte0 bs) (byte1 bs)
unfolding image byte0 byte1
line1 none bs h = tt
line1 (some n) bs h = rw h (refl, refl)

line2 : (o : Option ℕ) (bs : List ℕ) → Buffered channel_2 o bs → IsMsg2 o (half0 bs) (half1 bs)
unfolding image
line2 none bs h = tt
line2 (some n) bs h =
    let c : ℕ = (10 + n) % 2 ^ 16 in
    rw h (half0-msg2 220 c (omega arith), half1-msg2 220 c (omega arith))

abbrev AtLatest : Log ZbusCall → Type 0
AtLatest log = (c : Channel) → (pubs c log ≡ 0) ⊎ (latest c log ≡ image c (last_taken c log))

abbrev Fewer : SubPoint → Log ZbusCall → Type 0
Fewer sp log = (c : Channel) → shown c log + in_hand c sp + occurs c (notified log) ≤ pubs c log

module _ (env : Env ZbusCall) where
  abbrev published : Channel → ℕ → Log ZbusCall → Log ZbusCall
  published d n log = let c : ZbusCall = zbus_chan_pub d (image d n) in (c, env.result log c) ∷ log

  AtLatest-published :
      (d : Channel) (log : Log ZbusCall)
      → AtLatest log
      → AtLatest (published d (suc (offers d log)) log)
  unfolding pubs latest last_taken same
  AtLatest-published channel_1 log h channel_1 =
      let at = h channel_1 in
      let call : ZbusCall =
        zbus_chan_pub channel_1 (image channel_1 (suc (offers channel_1 log))) in
      elim (Bool-cases (is_taken (env.result log call))) [
        | inl e ↦ rw e (inr refl)
        | inr e ↦ rw e at
      ]
  AtLatest-published channel_1 log h channel_2 = h channel_2
  AtLatest-published channel_2 log h channel_1 = h channel_1
  AtLatest-published channel_2 log h channel_2 =
      let at = h channel_2 in
      let call : ZbusCall =
        zbus_chan_pub channel_2 (image channel_2 (suc (offers channel_2 log))) in
      elim (Bool-cases (is_taken (env.result log call))) [
        | inl e ↦ rw e (inr refl)
        | inr e ↦ rw e at
      ]

  Fewer-published :
      (d : Channel) (n : ℕ) (sp : SubPoint) (log : Log ZbusCall)
      → Fewer sp log
      → Fewer sp (published d n log)
  unfolding pubs shown notified
  Fewer-published d n sp log h c =
      let le = h c in
      let queue = occurs-append c d (notified log) in
      let call : ZbusCall = zbus_chan_pub d (image d n) in
      let zero_taken = is_zero-is_taken (env.result log call) in
      ground (arith, le, queue, zero_taken)

  pub publish-Kept :
      (pp : PubPoint) (sp : SubPoint) (s : Threads) (log : Log ZbusCall)
      → Kept sp s log
      → let (_, s', log') = publish_step pp env s log in Kept sp s' log'
  unfolding publish_step offers pubs last_taken last_read latest shown notified image same
  publish-Kept pub_sleeping sp s log h = h
  publish-Kept publish1 sp s log (at, few, m, i, b1, b2, cur) =
      let n : ℕ = suc (offers channel_1 log) in
      let e : (s.minor + 1) % 2 ^ 8 ≡ n % 2 ^ 8 = omega (arith, m) in
      rw e (
        AtLatest-published channel_1 log at,
        Fewer-published channel_1 n sp log few,
        refl,
        i,
        b1,
        b2,
        cur,
      )
  publish-Kept publish2 sp s log (at, few, m, i, b1, b2, cur) =
      let n : ℕ = suc (offers channel_2 log) in
      let e : (s.current + 1) % 2 ^ 16 ≡ (10 + n) % 2 ^ 16 = omega (arith, i) in
      rw e (
        AtLatest-published channel_2 log at,
        Fewer-published channel_2 n sp log few,
        m,
        refl,
        b1,
        b2,
        cur,
      )

  module _ (bus : Bus env) where
    wait-Fewer :
        (log : Log ZbusCall)
        → has_channel (notified log) ≡ true
        → Fewer waiting log
        → Fewer
            (reading (to_channel (to_ℕ (env.result log zbus_sub_wait))))
            ((zbus_sub_wait, env.result log zbus_sub_wait) ∷ log)
    unfolding pubs shown notified in_hand Bus
    wait-Fewer log nonempty few c =
        rw ((bus log).0)
          (let le = few c in omega (arith, le, occurs-first c (notified log) nonempty))

    -- What is read of a channel that was waited for.
    read-image :
        (d : Channel) (log : Log ZbusCall)
        → AtLatest log
        → Fewer (reading d) log
        → is_zero (env.result log (zbus_chan_read d)) ≡ true
        → env.bytes log (zbus_chan_read d) ≡ image d (last_taken d log)
    unfolding in_hand Bus same
    read-image channel_1 log at few ok = elim (at channel_1) [
      | inl none_yet ↦ let le = few channel_1 in absurd (omega (arith, le, none_yet))
      | inr e ↦ (bus log).1 channel_1 ok ∙ e
    ]
    read-image channel_2 log at few ok = elim (at channel_2) [
      | inl none_yet ↦ let le = few channel_2 in absurd (omega (arith, le, none_yet))
      | inr e ↦ (bus log).1 channel_2 ok ∙ e
    ]

    pub subscribe-Kept :
        (sp : SubPoint) (s : Threads) (log : Log ZbusCall)
        → can_run sp log ≡ true
        → Kept sp s log
        → let (p, s', log') = subscribe_step sp env s log in Kept p s' log'
    unfolding subscribe_step can_run offers pubs last_taken last_read same latest show shown
        notified in_hand image byte0 byte1
    subscribe-Kept waiting s log ready (at, few, m, i, b1, b2, cur) =
        (at, wait-Fewer log ready few, m, i, b1, b2, cur)
    subscribe-Kept (reading channel_1) s log ready (at, few, m, i, b1, b2, cur) =
        elim (Bool-cases (is_zero (env.result log (zbus_chan_read channel_1)))) [
          | inl ok ↦
              let e = read-image channel_1 log at few ok in
              rw ok (
                at,
                (λ c. let le = few c in ground (arith, le)),
                m,
                i,
                e,
                b2,
                (line1 (some (last_taken channel_1 log)) _ e, cur),
              )
          | inr ko ↦ rw ko (
            at,
            (λ c. let le = few c in ground (arith, le)),
            m,
            i,
            b1,
            b2,
            (line1 (last_read channel_1 log) s.received_msg b1, cur),
          )
        ]
    subscribe-Kept (reading channel_2) s log ready (at, few, m, i, b1, b2, cur) =
        elim (Bool-cases (is_zero (env.result log (zbus_chan_read channel_2)))) [
          | inl ok ↦
              let e = read-image channel_2 log at few ok in
              rw ok (
                at,
                (λ c. let le = few c in ground (arith, le)),
                m,
                i,
                b1,
                e,
                (line2 (some (last_taken channel_2 log)) _ e, cur),
              )
          | inr ko ↦ rw ko (
            at,
            (λ c. let le = few c in ground (arith, le)),
            m,
            i,
            b1,
            b2,
            (line2 (last_read channel_2 log) s.received_msg2 b2, cur),
          )
        ]
