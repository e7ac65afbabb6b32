-- ===== src/App/Settings/Sanitize.antt =====
-- app/src/stream_settings.cpp: what `Sanitize` keeps, and app/src/models.hpp: the bit rates.
use booster_nx.Common.{
  ℕ, ◌*◌, ◌≤◌, ◌≡◌, ◌⊎◌, ◌↔◌, List, [], ◌∷◌, ◌||◌, refl, ap, Bool, true, false, not, ◌&&◌, leb,
  arith, Bool-cases, inl, inr, if◌then◌else◌,
}
use booster_nx.Common.Int.{ℤ, pos, negsuc, ◌*ℤ◌, ◌≤ℤ◌}
use booster_nx.App.History.{same_text}
use booster_nx.App.Settings.{
  auto_backend, software_backend, adaptive, clarity, original, english, StreamSettings, clamp_mbps,
  bitrate_of_pixels, target_bitrate_bps, is_positive, is_frame_rate, is_backend, is_quality_mode,
  has_size, is_supported, sanitize,
}

-- What can be used, field by field. A size needs both of its numbers.
abbrev IsResolution : ℤ → ℤ → Type 0
IsResolution width height = (pos 1 ≤ℤ width) × (pos 1 ≤ℤ height)

abbrev IsFrameRate : ℤ → Type 0
IsFrameRate fps = (fps ≡ pos 30) ⊎ (fps ≡ pos 60)

abbrev IsBitRate : ℤ → Type 0
IsBitRate mbps = (pos 3 ≤ℤ mbps) × (mbps ≤ℤ pos 80)

abbrev IsBackend : List ℕ → Type 0
IsBackend b = (b ≡ auto_backend) ⊎ (b ≡ software_backend)

abbrev IsQualityMode : List ℕ → Type 0
IsQualityMode m = (m ≡ adaptive) ⊎ ((m ≡ clarity) ⊎ (m ≡ original))

abbrev IsSupported : List ℕ → Type 0
IsSupported code = is_supported code ≡ true

-- Settings that a session can be made with.
abbrev pub IsUsable : StreamSettings → Type 0
IsUsable s =
    IsResolution s.width s.height
    × IsFrameRate s.fps
    × IsBackend s.video_backend
    × IsSupported s.interface_language
    × IsQualityMode s.image_quality_mode
    × IsBitRate s.manual_bitrate_mbps

-- A field of the result is the one that was given, unless that one cannot be used.
abbrev Kept {ℓ} : Type 0 → {A : Type ℓ} → A → A → Type ℓ
Kept Usable x y = (y ≡ x) ⊎ (¬ Usable)

abbrev pub KeepsUsable : StreamSettings → StreamSettings → Type 0
KeepsUsable s t =
    Kept (IsResolution s.width s.height) s.width t.width
    × Kept (IsResolution s.width s.height) s.height t.height
    × Kept (IsFrameRate s.fps) s.fps t.fps
    × (t.automatic_bitrate ≡ s.automatic_bitrate)
    × Kept (IsBitRate s.manual_bitrate_mbps) s.manual_bitrate_mbps t.manual_bitrate_mbps
    × Kept (IsBackend s.video_backend) s.video_backend t.video_backend
    × Kept (IsSupported s.interface_language) s.interface_language t.interface_language
    × Kept (IsQualityMode s.image_quality_mode) s.image_quality_mode t.image_quality_mode

-- The tests of the code decide them.
same_text_self : (xs : List ℕ) → same_text xs xs ≡ true
same_text_self [] = refl
same_text_self (x ∷ xs) = ground (arith, same_text_self xs)

eq_of_same_text : (xs ys : List ℕ) → same_text xs ys ≡ true → xs ≡ ys
eq_of_same_text [] [] e = refl
eq_of_same_text [] (y ∷ ys) e = absurd (cc (e))
eq_of_same_text (x ∷ xs) [] e = absurd (cc (e))
eq_of_same_text (x ∷ xs) (y ∷ ys) e =
    let first : x ≡ y = ground (arith, e) in
    let rest : xs ≡ ys = eq_of_same_text xs ys (ground (arith, e)) in cc (first, rest)

same_text_iff : (xs ys : List ℕ) → (same_text xs ys ≡ true) ↔ (xs ≡ ys)
same_text_iff xs ys = (eq_of_same_text xs ys, λ e. rw e (same_text_self ys))

or_iff : (a b : Bool) (P Q : Type 0) → (a ≡ true) ↔ P → (b ≡ true) ↔ Q → ((a || b) ≡ true) ↔ (P ⊎ Q)
or_iff true b P Q p q = (λ e. inl (p.0 refl), λ h. refl)
or_iff false b P Q p q =
    (λ e. inr (q.0 e), λ h. elim h [ inl x ↦ absurd (cc (p.1 x)) | inr y ↦ q.1 y ])

has_size_iff : (w h : ℤ) → ((is_positive w && is_positive h) ≡ true) ↔ IsResolution w h
has_size_iff (pos m) (pos n) = (λ e. ground (arith, e), λ z. ground (arith, z.0, z.1))
has_size_iff (pos m) (negsuc n) =
    (λ e. absurd (ground (arith, e)), λ z. absurd (omega (arith, z.1)))
has_size_iff (negsuc m) h = (λ e. absurd (cc (e)), λ z. absurd (omega (arith, z.0)))

is_frame_rate_iff : (fps : ℤ) → (is_frame_rate fps ≡ true) ↔ IsFrameRate fps
is_frame_rate_iff (pos n) =
    (λ e. ground (arith, e), λ h. elim h [ inl e ↦ ground (arith, e) | inr e ↦ ground (arith, e) ])
is_frame_rate_iff (negsuc n) =
    (λ e. absurd (cc (e)), λ h. elim h [ inl e ↦ absurd (cc (e)) | inr e ↦ absurd (cc (e)) ])

is_backend_iff : (b : List ℕ) → (is_backend b ≡ true) ↔ IsBackend b
is_backend_iff b =
    or_iff (same_text b auto_backend) (same_text b software_backend) _ _
      (same_text_iff b auto_backend) (same_text_iff b software_backend)

is_quality_mode_iff : (m : List ℕ) → (is_quality_mode m ≡ true) ↔ IsQualityMode m
is_quality_mode_iff m =
    or_iff (same_text m adaptive) (same_text m clarity || same_text m original) _ _
      (same_text_iff m adaptive)
      (or_iff (same_text m clarity) (same_text m original) _ _ (same_text_iff m clarity)
        (same_text_iff m original))

is_supported_iff : (code : List ℕ) → (is_supported code ≡ true) ↔ IsSupported code
is_supported_iff code = (λ e. e, λ e. e)

choice {ℓ} :
    {A : Type ℓ} (test : A → Bool) (P : A → Type 0) (x y : A)
    → ((z : A) → (test z ≡ true) ↔ P z)
    → P y
    → P (if test x then x else y)
choice test P x y d h = elim (Bool-cases (test x)) [ inl e ↦ rw e ((d x).0 e) | inr e ↦ rw e h ]

choose_size :
    (b : Bool) (w h : ℤ)
    → (is_positive w && is_positive h) ≡ b
    → IsResolution (if b then w else pos 1920) (if b then h else pos 1080)
choose_size true w h e = (has_size_iff w h).0 e
choose_size false w h e = (omega arith, omega arith)

clamp_mbps-IsBitRate : (m : ℤ) → IsBitRate (pos (clamp_mbps m))
clamp_mbps-IsBitRate (negsuc n) = (omega arith, omega arith)
clamp_mbps-IsBitRate (pos n) = ground arith

sanitize-IsUsable : (s : StreamSettings) → IsUsable (sanitize s)
unfolding sanitize
sanitize-IsUsable s = (
  choose_size (has_size s) s.width s.height refl,
  choice is_frame_rate IsFrameRate s.fps (pos 60) is_frame_rate_iff (inr refl),
  choice is_backend IsBackend s.video_backend auto_backend is_backend_iff (inl refl),
  choice is_supported IsSupported s.interface_language english is_supported_iff refl,
  choice is_quality_mode IsQualityMode s.image_quality_mode adaptive is_quality_mode_iff (inl refl),
  clamp_mbps-IsBitRate s.manual_bitrate_mbps,
)

clamp_mbps_lem : (m : ℤ) → IsBitRate m → pos (clamp_mbps m) ≡ m
clamp_mbps_lem (negsuc n) h = absurd (omega (arith, h.0))
clamp_mbps_lem (pos n) h = ground (arith, h.0, h.1)

sanitize_usable : (s : StreamSettings) → IsUsable s → sanitize s ≡ s
unfolding sanitize
sanitize_usable s h = cc (
  ap (λ b. if b then s.width else pos 1920) ((has_size_iff s.width s.height).1 h.0),
  ap (λ b. if b then s.height else pos 1080) ((has_size_iff s.width s.height).1 h.0),
  ap (λ b. if b then s.fps else pos 60) ((is_frame_rate_iff s.fps).1 h.1),
  ap (λ b. if b then s.video_backend else auto_backend) ((is_backend_iff s.video_backend).1 h.2),
  ap (λ b. if b then s.interface_language else english) h.3,
  ap (λ b. if b then s.image_quality_mode else adaptive)
      ((is_quality_mode_iff s.image_quality_mode).1 h.4),
  clamp_mbps_lem s.manual_bitrate_mbps h.5,
)

if-Kept {ℓ} :
    {A : Type ℓ} (b : Bool) (P : Type 0) (x y : A) → (b ≡ true) ↔ P → Kept P x (if b then x else y)
if-Kept true P x y d = inl refl
if-Kept false P x y d = inr (λ p. absurd (cc (d.1 p)))

clamp_mbps-Kept : (m : ℤ) → Kept (IsBitRate m) m (pos (clamp_mbps m))
clamp_mbps-Kept (negsuc n) = inr (λ h. absurd (omega (arith, h.0)))
clamp_mbps-Kept (pos n) = elim (Bool-cases (leb 3 n && leb n 80)) [
  | inl e ↦ inl (ground (arith, e))
  | inr e ↦ inr (λ h. absurd (ground (arith, e, h.0, h.1)))
]

sanitize-KeepsUsable : (s : StreamSettings) → KeepsUsable s (sanitize s)
unfolding sanitize
sanitize-KeepsUsable s = (
  if-Kept (has_size s) _ s.width (pos 1920) (has_size_iff s.width s.height),
  if-Kept (has_size s) _ s.height (pos 1080) (has_size_iff s.width s.height),
  if-Kept (is_frame_rate s.fps) _ s.fps (pos 60) (is_frame_rate_iff s.fps),
  refl,
  clamp_mbps-Kept s.manual_bitrate_mbps,
  if-Kept (is_backend s.video_backend) _ s.video_backend auto_backend
      (is_backend_iff s.video_backend),
  if-Kept (is_supported s.interface_language) _ s.interface_language english
      (is_supported_iff s.interface_language),
  if-Kept (is_quality_mode s.image_quality_mode) _ s.image_quality_mode adaptive
      (is_quality_mode_iff s.image_quality_mode),
)

-- Sanitized settings are usable, and sanitizing them again changes nothing. Every field that can be
-- used is kept, whatever the others hold, the width and the height where both can be; so settings `t`
-- that are usable are left alone. The bit rate that is asked for lies between 3 and 80 Mbps whatever
-- the settings and the size of the picture.
pub sanitize-stable :
    (s t : StreamSettings) (width height : ℤ)
    → IsUsable t
    → IsUsable (sanitize s)
      × (sanitize (sanitize s) ≡ sanitize s)
      × KeepsUsable s (sanitize s)
      × (sanitize t ≡ t)
      × (3000000 ≤ target_bitrate_bps s width height)
      × (target_bitrate_bps s width height ≤ 80000000)
unfolding target_bitrate_bps
sanitize-stable s t width height h = (
  sanitize-IsUsable s,
  sanitize_usable (sanitize s) (sanitize-IsUsable s),
  sanitize-KeepsUsable s,
  sanitize_usable t h,
  (bounds s.automatic_bitrate s.manual_bitrate_mbps (width *ℤ height)).0,
  (bounds s.automatic_bitrate s.manual_bitrate_mbps (width *ℤ height)).1,
)
  where
    rate : Bool → ℤ → ℤ → ℕ
    rate automatic m p = if not automatic then clamp_mbps m * 1000000 else bitrate_of_pixels p

    bounds :
        (automatic : Bool) (m p : ℤ)
        → (3000000 ≤ rate automatic m p) × (rate automatic m p ≤ 80000000)
    bounds false (negsuc n) p = ground arith
    bounds false (pos n) p = ground arith
    bounds true m (negsuc n) = ground arith
    bounds true m (pos n) = ground arith
