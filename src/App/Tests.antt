-- ===== src/App/Tests.antt =====
-- Runs of the application's rules, and their theorems at inputs that meet their hypotheses.
use booster_nx.Common.{
  ℕ, ◌*◌, ◌≡◌, ◌≤◌, ◌<◌, refl, true, false, some, none, List, [], ◌∷◌, map, All, length, arith, inl,
  inr,
}
use booster_nx.Common.Int.{pos, negsuc}
use booster_nx.App.Replace.{
  Disk, FileSystem, Replaces, replace_with_temporary_file, replace_with_temporary_file-Replaces,
}
use booster_nx.App.History.{
  GameInfo, PlayHistory, less_text, find_timestamp, apply_play_history, mark_game_played,
}
use booster_nx.App.Pulse.{Pulse, queue, is_active, run, active_asked, delivered, is_active-ends}
use booster_nx.App.Ports.{add_all, is_listed, prioritize_ports}
use booster_nx.App.Histogram.{
  thresholds, total, within, record_latency, record_latency_from, percentile_from,
  latency_percentile_95, latency_percentile_95-least,
}
use booster_nx.App.Settings.{
  StreamSettings, software_backend, sanitize, target_bitrate_bps, auto_backend, clarity,
  cycle_resolution, cycle_frame_rate, cycle_image_quality, original,
}
use booster_nx.App.Settings.Sanitize.{IsUsable, KeepsUsable, sanitize-stable}
use booster_nx.App.Journal.{
  IsSafe, sanitize_runtime_url, sanitize_runtime_url-IsSafe, before_query, after_userinfo,
  sanitize_authority, single_line,
}
use booster_nx.App.StreamEnd.{StreamEndSignals, no_terminal, video_timed_out, detect_stream_end}

-- No rename onto a file, and the second install fails.
abbrev fat : FileSystem
fat = record {
  replaces = false;
  remove_old_backup_fails = false;
  install_fails = false;
  set_aside_fails = false;
  second_install_fails = true;
  remove_backup_fails = false;
  restore_fails = false;
  remove_temporary_fails = false;
}

abbrev saving : Disk
saving = record { temporary = some (2 ∷ []); destination = some (1 ∷ []); backup = none }

restored :
    replace_with_temporary_file fat saving
    ≡ (record { temporary = none; destination = some (1 ∷ []); backup = none }, false)
unfolding replace_with_temporary_file
restored = refl

replaced :
    replace_with_temporary_file (record fat { second_install_fails = false }) saving
    ≡ (record { temporary = none; destination = some (2 ∷ []); backup = none }, true)
unfolding replace_with_temporary_file
replaced = refl

-- The only copy of the old content is the backup, which goes first.
backup_lost :
    replace_with_temporary_file
      (record fat { install_fails = true })
      (record { temporary = some (2 ∷ []); destination = none; backup = some (1 ∷ []) })
    ≡ (record { temporary = none; destination = none; backup = none }, false)
unfolding replace_with_temporary_file
backup_lost = refl

replace_with_temporary_file-Replaces_example :
    Replaces saving (replace_with_temporary_file fat saving)
replace_with_temporary_file-Replaces_example = replace_with_temporary_file-Replaces fat saving

abbrev library : List GameInfo
library =
    record { id = 7 ∷ []; title = 70 ∷ []; last_played = 50 ∷ [] }
    ∷ record { id = 8 ∷ []; title = 80 ∷ []; last_played = [] }
    ∷ []

abbrev played : PlayHistory
played = record { by_id = (7 ∷ [], 50 ∷ 49 ∷ []) ∷ []; by_title = (80 ∷ [], 51 ∷ []) ∷ [] }

applied :
    map (λ g. g.last_played) (apply_play_history library played) ≡ (50 ∷ 49 ∷ []) ∷ (51 ∷ []) ∷ []
unfolding less_text find_timestamp
applied = refl

marked :
    map (λ g. g.last_played) (mark_game_played library [] (80 ∷ []) (9 ∷ []))
    ≡ (50 ∷ []) ∷ (9 ∷ []) ∷ []
marked = refl

abbrev no_pulse : Pulse
no_pulse = record { pending = false; delivery_deadline = 0; hold_until = 0 }

is_active-ends_example :
    (is_active
      (run (queue no_pulse 10) (active_asked 20 ∷ delivered 2000009 ∷ delivered 2000009 ∷ []))
      2180010).1
    ≡ false
is_active-ends_example =
    is_active-ends 10 2180010 no_pulse
      (active_asked 20 ∷ delivered 2000009 ∷ delivered 2000009 ∷ [])
      (omega arith, (omega arith, (omega arith, tt))) (omega arith)

ports_chosen :
    prioritize_ports (pos 443) (pos 49005 ∷ negsuc 3 ∷ pos 443 ∷ pos 49005 ∷ pos 70000 ∷ [])
    ≡ 49005 ∷ 443 ∷ []
unfolding add_all is_listed
ports_chosen = refl

abbrev samples : List ℕ
samples = 90 ∷ 4 ∷ 0 ∷ 5 ∷ 0 ∷ 0 ∷ 0 ∷ 0 ∷ 0 ∷ 1 ∷ []

percentile_found : latency_percentile_95 samples ≡ 8000
unfolding latency_percentile_95 percentile_from
percentile_found = refl

sample_counted : record_latency samples 1001 ≡ 90 ∷ 5 ∷ 0 ∷ 5 ∷ 0 ∷ 0 ∷ 0 ∷ 0 ∷ 0 ∷ 1 ∷ []
unfolding record_latency_from
sample_counted = refl

latency_percentile_95-least_example :
    (95 * total samples ≤ 100 * within (latency_percentile_95 samples) thresholds samples)
    × ((bound : ℕ)
        → bound < latency_percentile_95 samples
        → 100 * within bound thresholds samples < 95 * total samples)
latency_percentile_95-least_example =
    latency_percentile_95-least samples refl (omega arith) (omega (arith, percentile_found))

abbrev broken_settings : StreamSettings
broken_settings = record {
  width = pos 1280;
  height = negsuc 0;
  fps = pos 50;
  automatic_bitrate = false;
  manual_bitrate_mbps = pos 200;
  video_backend = [];
  interface_language = 101 ∷ 115 ∷ [];
  image_quality_mode = clarity;
}

repaired :
    cycle_image_quality (cycle_frame_rate (cycle_resolution (sanitize broken_settings))) ≡ record {
      width = pos 1280;
      height = pos 720;
      fps = pos 30;
      automatic_bitrate = false;
      manual_bitrate_mbps = pos 80;
      video_backend = auto_backend;
      interface_language = 101 ∷ 115 ∷ [];
      image_quality_mode = original;
    }
unfolding sanitize
repaired = refl

-- Usable settings with nothing at its default but the language.
abbrev usable_settings : StreamSettings
usable_settings = record {
  width = pos 1280;
  height = pos 720;
  fps = pos 30;
  automatic_bitrate = false;
  manual_bitrate_mbps = pos 80;
  video_backend = software_backend;
  interface_language = 101 ∷ 110 ∷ [];
  image_quality_mode = original;
}

sanitize-stable_example :
    IsUsable (sanitize broken_settings)
    × (sanitize (sanitize broken_settings) ≡ sanitize broken_settings)
    × KeepsUsable broken_settings (sanitize broken_settings)
    × (sanitize usable_settings ≡ usable_settings)
    × (3000000 ≤ target_bitrate_bps broken_settings (pos 1280) (pos 720))
    × (target_bitrate_bps broken_settings (pos 1280) (pos 720) ≤ 80000000)
sanitize-stable_example = sanitize-stable broken_settings usable_settings (pos 1280) (pos 720) (
  (omega arith, omega arith),
  inl refl,
  inr refl,
  refl,
  inr (inr refl),
  (omega arith, omega arith),
)

abbrev silent : StreamEndSignals
silent = record {
  free_tier = true;
  session_elapsed = 60000;
  internet_connected = true;
  peer_completed = true;
  peer_terminal = no_terminal;
  signaling_connected = true;
  video_started = true;
  video_idle = 15000;
}

silence_ends : detect_stream_end silent ≡ video_timed_out
unfolding detect_stream_end
silence_ends = refl

-- "https://u:p@h/x@y?t=1" becomes "https://h/x@y".
abbrev secret_url : List ℕ
secret_url =
    (104 ∷ 116 ∷ 116 ∷ 112 ∷ 115 ∷ 58 ∷ 47 ∷ 47 ∷ 117 ∷ 58 ∷ 112 ∷ 64 ∷ 104 ∷ 47 ∷ 120 ∷ 64 ∷ 121
      ∷ 63 ∷ 116 ∷ 61 ∷ 49 ∷ [])

secret_removed :
    sanitize_runtime_url secret_url
    ≡ (104 ∷ 116 ∷ 116 ∷ 112 ∷ 115 ∷ 58 ∷ 47 ∷ 47 ∷ 104 ∷ 47 ∷ 120 ∷ 64 ∷ 121 ∷ [])
unfolding before_query after_userinfo sanitize_authority single_line
secret_removed = refl

-- With an `@` in the password, what is behind it stays.
secret_kept :
    sanitize_runtime_url (119 ∷ 115 ∷ 58 ∷ 47 ∷ 47 ∷ 117 ∷ 58 ∷ 112 ∷ 64 ∷ 115 ∷ 64 ∷ 104 ∷ [])
    ≡ (119 ∷ 115 ∷ 58 ∷ 47 ∷ 47 ∷ 115 ∷ 64 ∷ 104 ∷ [])
unfolding before_query after_userinfo sanitize_authority single_line
secret_kept = refl

sanitize_runtime_url-IsSafe_example :
    All IsSafe (sanitize_runtime_url secret_url) × (length (sanitize_runtime_url secret_url) ≤ 700)
sanitize_runtime_url-IsSafe_example = sanitize_runtime_url-IsSafe secret_url
