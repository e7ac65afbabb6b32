-- ===== src/App/Settings.antt =====
-- app/src/models.hpp: `StreamSettings` and `TargetBitrateBps`; app/src/stream_settings.cpp:
-- `Sanitize`; app/src/stream_settings_policy.hpp and video_quality_policy.hpp: the cycles. Texts are
-- lists of bytes. The dead zone, a double, is left out.
pub mod Sanitize
use booster_nx.Common.{
  ℕ, ◌*◌, Bool, false, not, ◌&&◌, ◌||◌, List, [], ◌∷◌, ltb, ◌==◌, if◌then◌else◌,
}
use booster_nx.Common.Int.{ℤ, pos, negsuc, ltb_ℤ, ◌*ℤ◌}
use booster_nx.App.History.{same_text}

-- "Auto", "Software", "Adaptive", "Clarity", "Original" and "en".
abbrev pub auto_backend : List ℕ
auto_backend = 65 ∷ 117 ∷ 116 ∷ 111 ∷ []

abbrev pub software_backend : List ℕ
software_backend = 83 ∷ 111 ∷ 102 ∷ 116 ∷ 119 ∷ 97 ∷ 114 ∷ 101 ∷ []

abbrev pub adaptive : List ℕ
adaptive = 65 ∷ 100 ∷ 97 ∷ 112 ∷ 116 ∷ 105 ∷ 118 ∷ 101 ∷ []

abbrev pub clarity : List ℕ
clarity = 67 ∷ 108 ∷ 97 ∷ 114 ∷ 105 ∷ 116 ∷ 121 ∷ []

abbrev pub original : List ℕ
original = 79 ∷ 114 ∷ 105 ∷ 103 ∷ 105 ∷ 110 ∷ 97 ∷ 108 ∷ []

abbrev pub english : List ℕ
english = 101 ∷ 110 ∷ []

pub record StreamSettings : Type 0 where
  pub width : ℤ
  pub height : ℤ
  pub fps : ℤ
  pub automatic_bitrate : Bool
  pub manual_bitrate_mbps : ℤ
  pub video_backend : List ℕ
  pub interface_language : List ℕ
  pub image_quality_mode : List ℕ

-- `std::max(3, std::min(80, value))`.
abbrev pub clamp_mbps : ℤ → ℕ
clamp_mbps (negsuc n) = 3
clamp_mbps (pos n) = if ltb n 3 then 3 else (if ltb 80 n then 80 else n)

abbrev pub bitrate_of_pixels : ℤ → ℕ
bitrate_of_pixels (negsuc n) = 7000000
bitrate_of_pixels (pos n) =
    if ltb n 900000
    then 7000000
    else (if ltb n 1000000
        then 10000000
        else (if ltb n 1200000
            then 14000000
            else (if ltb n 1500000
                then 17000000
                else (if ltb n 1900000 then 20000000 else 24000000))))

pub target_bitrate_bps : StreamSettings → ℤ → ℤ → ℕ
target_bitrate_bps s width height =
    if not s.automatic_bitrate
    then clamp_mbps s.manual_bitrate_mbps * 1000000
    else bitrate_of_pixels (width *ℤ height)

abbrev pub is_positive : ℤ → Bool
is_positive (negsuc n) = false
is_positive (pos n) = ltb 0 n

abbrev pub is_frame_rate : ℤ → Bool
is_frame_rate (negsuc n) = false
is_frame_rate (pos n) = (n == 30) || (n == 60)

abbrev pub is_backend : List ℕ → Bool
is_backend b = same_text b auto_backend || same_text b software_backend

abbrev pub is_quality_mode : List ℕ → Bool
is_quality_mode m = same_text m adaptive || (same_text m clarity || same_text m original)

abbrev pub has_size : StreamSettings → Bool
has_size s = is_positive s.width && is_positive s.height

-- The codes of `InterfaceLanguageOptions`, and `IsSupportedInterfaceLanguage`.
abbrev pub language_codes : List (List ℕ)
language_codes =
    english
    ∷ (122 ∷ 104 ∷ 45 ∷ 67 ∷ 78 ∷ [])
    ∷ (101 ∷ 115 ∷ [])
    ∷ (114 ∷ 117 ∷ [])
    ∷ (105 ∷ 116 ∷ [])
    ∷ (102 ∷ 114 ∷ [])
    ∷ (112 ∷ 108 ∷ [])
    ∷ (117 ∷ 107 ∷ [])
    ∷ []

abbrev pub is_one_of : List (List ℕ) → List ℕ → Bool
is_one_of [] code = false
is_one_of (c ∷ cs) code = same_text c code || is_one_of cs code

abbrev pub is_supported : List ℕ → Bool
is_supported code = is_one_of language_codes code

unfoldable pub sanitize : StreamSettings → StreamSettings
sanitize s = record {
  width = if has_size s then s.width else pos 1920;
  height = if has_size s then s.height else pos 1080;
  fps = if is_frame_rate s.fps then s.fps else pos 60;
  automatic_bitrate = s.automatic_bitrate;
  manual_bitrate_mbps = pos (clamp_mbps s.manual_bitrate_mbps);
  video_backend = if is_backend s.video_backend then s.video_backend else auto_backend;
  interface_language = if is_supported s.interface_language then s.interface_language else english;
  image_quality_mode =
      if is_quality_mode s.image_quality_mode then s.image_quality_mode else adaptive;
}

-- The cycles of the settings view, for the fields that are kept here.
abbrev pub cycle_resolution : StreamSettings → StreamSettings
cycle_resolution s =
    if ltb_ℤ s.height (pos 1080)
    then record s { width = pos 1920; height = pos 1080 }
    else record s { width = pos 1280; height = pos 720 }

abbrev pub cycle_frame_rate : StreamSettings → StreamSettings
cycle_frame_rate s = record s { fps = if ltb_ℤ s.fps (pos 60) then pos 60 else pos 30 }

abbrev pub next_quality_mode : List ℕ → List ℕ
next_quality_mode mode =
    if same_text mode adaptive
    then clarity
    else (if same_text mode clarity then original else adaptive)

abbrev pub cycle_image_quality : StreamSettings → StreamSettings
cycle_image_quality s = record s { image_quality_mode = next_quality_mode s.image_quality_mode }
