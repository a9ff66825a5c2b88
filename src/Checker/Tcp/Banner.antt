-- ===== src/Checker/Tcp/Banner.antt =====
-- readBanner: it ends at the deadline of its connection, and what it returns is what was read.
use tenpm_uptime_monitor.Prelude.{
  ℕ, zero, suc, ◌+◌, ◌-◌, ◌≤◌, ◌<◌, ◌≡◌, refl, ap, ◌⊎◌, inl, inr, true, false, some, [], ◌++◌,
  length, arith, Bool-cases, length-append, dec_lt, ℕ_discrete, Option-cases, ◌∙◌,
}
use tenpm_uptime_monitor.Prelude.Text.{Text}
use tenpm_uptime_monitor.Checker.Tcp.{
  Reads, read_rounds, read_banner, banner_of, max_banner_read_len,
}

-- A Read puts no more bytes into a buffer than fit.
abbrev pub Fits : Reads → Type 0
Fits reads = (n room : ℕ) → length (reads n room).0 ≤ room

-- The n-th Read comes after the deadline, and returns an error.
abbrev pub Expires : Reads → ℕ → Type 0
Expires reads n = (room : ℕ) → (reads n room).1 ≡ true

-- What is read from the n-th round on into the given room: the bytes of each Read, those that come
-- with an error included, up to the first error or until the room is filled.
pub data BannerIs (reads : Reads) : ℕ → ℕ → Text → Type 0 where
  filled : {n : ℕ} → BannerIs reads n 0 []
  last : {n room : ℕ} → 0 < room → (reads n room).1 ≡ true → BannerIs reads n room (reads n room).0
  more :
      {n room : ℕ} {s : Text}
      → 0 < room
      → (reads n room).1 ≡ false
      → BannerIs reads (suc n) (room - length (reads n room).0) s
      → BannerIs reads n room ((reads n room).0 ++ s)

filled-BannerIs : (reads : Reads) (n room : ℕ) → room ≡ 0 → BannerIs reads n room []
filled-BannerIs reads n zero e = filled
filled-BannerIs reads n (suc room) e = absurd (omega arith)

-- With k more rounds up to the one that the deadline ends.
read_rounds-ends :
    (reads : Reads) (fuel k n room : ℕ)
    → Fits reads
    → ((r : ℕ) (m : ℕ) → m ≡ n + k → (reads m r).1 ≡ true)
    → k < fuel
    → (s : Text) × (read_rounds reads fuel n room ≡ some s)
      × BannerIs reads n room s
      × (length s ≤ room)
unfolding read_rounds
read_rounds-ends reads zero k n room fits late lt = absurd (omega arith)
read_rounds-ends reads (suc fuel) k n room fits late lt = elim (dec_lt 0 room) [
  | no full ↦ ([], ground arith, filled-BannerIs reads n room (omega arith), omega arith)
  | yes space ↦ elim (Bool-cases (reads n room).1) [
    | inl failed ↦ ((reads n room).0, ground arith, last space failed, fits n room)
    | inr fine ↦ elim (ℕ_discrete k 0) [
      | yes z ↦ absurd (ground (arith, late room n (omega arith), fine))
      | no later ↦
          let (s, e, is, short) =
            read_rounds-ends reads fuel (k - 1) (suc n) (room - length (reads n room).0) fits
              (λ r m at. late r m (omega arith)) (omega arith) in
          let fit = fits n room in
          (
            (reads n room).0 ++ s,
            ground (arith, e, space, fine),
            more space fine is,
            omega (arith, length-append (reads n room).0 s, fit, short),
          )
    ]
  ]
]

-- Every Read into a buffer with room returns something, or an error.
abbrev pub Progresses : Reads → Type 0
Progresses reads =
    (n room : ℕ) → 0 < room → (0 < length (reads n room).0) ⊎ ((reads n room).1 ≡ true)

-- With more rounds left than bytes that fit.
read_rounds-fills :
    (reads : Reads) (fuel n room : ℕ)
    → Fits reads
    → Progresses reads
    → room < fuel
    → (s : Text) × (read_rounds reads fuel n room ≡ some s)
      × BannerIs reads n room s
      × (length s ≤ room)
unfolding read_rounds
read_rounds-fills reads zero n room fits go_on lt = absurd (omega arith)
read_rounds-fills reads (suc fuel) n room fits go_on lt = elim (dec_lt 0 room) [
  | no full ↦ ([], ground arith, filled-BannerIs reads n room (omega arith), omega arith)
  | yes space ↦ elim (Bool-cases (reads n room).1) [
    | inl failed ↦ ((reads n room).0, ground arith, last space failed, fits n room)
    | inr fine ↦
        let some_read = go_on n room space in
        let fit = fits n room in
        let (s, e, is, short) =
          read_rounds-fills reads fuel (suc n) (room - length (reads n room).0) fits go_on
            (ground arith) in
        (
          (reads n room).0 ++ s,
          ground (arith, e, space, fine),
          more space fine is,
          omega (arith, length-append (reads n room).0 s, fit, short),
        )
  ]
]

-- What ends the loop within the fuel: the deadline passes before some round, or every Read brings it
-- on and the fuel is above the room of the buffer.
pub data Settles (reads : Reads) (fuel : ℕ) : Type 0 where
  by_deadline : (k : ℕ) → Expires reads k → k < fuel → Settles reads fuel
  by_progress : Progresses reads → max_banner_read_len < fuel → Settles reads fuel

-- readBanner ends on every connection whose Reads put no more bytes into the buffer than fit, if the
-- deadline passes before a round of which the number is below the fuel, or if every Read returns
-- something or an error and the fuel is above the room of the buffer; its banner is what was read up to
-- the first error or until the buffer is full, the bytes that come with the error included, and it fits
-- the buffer.
pub read_banner-ends :
    (reads : Reads) (fuel : ℕ)
    → Fits reads
    → Settles reads fuel
    → (s : Text) × (read_banner reads fuel ≡ some s)
      × BannerIs reads 0 max_banner_read_len s
      × (length s ≤ max_banner_read_len)
unfolding read_banner
read_banner-ends reads fuel fits (by_deadline k late lt) =
    read_rounds-ends reads fuel k 0 max_banner_read_len fits
      (λ r m at. let same : m ≡ k = omega (arith, at) in rw same (late r)) lt
read_banner-ends reads fuel fits (by_progress go_on lt) =
    read_rounds-fills reads fuel 0 max_banner_read_len fits go_on lt

read_rounds_unique :
    (reads : Reads) (fuel : ℕ) {n room : ℕ} {s : Text} (s' : Text)
    → BannerIs reads n room s
    → read_rounds reads fuel n room ≡ some s'
    → s ≡ s'
unfolding read_rounds
read_rounds_unique reads zero s' b e = absurd (ground (arith, e))
read_rounds_unique reads (suc fuel) s' filled e = ground (arith, e)
read_rounds_unique reads (suc fuel) s' (last space failed) e = ground (arith, e, space, failed)
read_rounds_unique reads (suc fuel) {n} {room} s' (more space fine b) e =
    let chunk : Text = (reads n room).0 in
    elim (Option-cases (read_rounds reads fuel (suc n) (room - length chunk))) [
      | inl stuck ↦ absurd (ground (arith, e, space, fine, stuck))
      | inr (rest, e') ↦
          ap (◌++◌ chunk) (read_rounds_unique reads fuel rest b e')
          ∙ ground (arith, e, space, fine, e')
    ]

-- On such a connection, the banner of a tcp run is the one text that was read.
pub banner_of-BannerIs :
    (reads : Reads)
    → Fits reads
    → Settles reads (suc max_banner_read_len)
    → BannerIs reads 0 max_banner_read_len (banner_of reads)
unfolding banner_of
banner_of-BannerIs reads fits settles =
    let (s, e, is, short) = read_banner-ends reads (suc max_banner_read_len) fits settles in
    rw (e, banner_of) is

pub banner_of_unique :
    (reads : Reads) (s : Text)
    → Fits reads
    → Settles reads (suc max_banner_read_len)
    → BannerIs reads 0 max_banner_read_len s
    → s ≡ banner_of reads
unfolding banner_of read_banner
banner_of_unique reads s fits settles is =
    let (s', e, is', short) = read_banner-ends reads (suc max_banner_read_len) fits settles in
    read_rounds_unique reads (suc max_banner_read_len) s' is e ∙ rw (e, banner_of) refl
