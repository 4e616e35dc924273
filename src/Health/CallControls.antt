-- ===== src/Health/CallControls.antt =====
-- messk/src/lib/callControls.ts
use messk.Prelude.{Bool, true, false, Text, codes, ◌++◌, if◌then◌else◌}

pub data AccessibleCallState : Type 0 where
  idle incoming outgoing active : AccessibleCallState

pub data AccessibleCallMedia : Type 0 where
  audio video screen : AccessibleCallMedia

pub data AccessibleCallTone : Type 0 where
  neutral success warning danger : AccessibleCallTone

pub data StatusRole : Type 0 where
  status alert : StatusRole

pub data StatusLive : Type 0 where
  polite assertive : StatusLive

pub record CallControlAccessibility : Type 0 where
  pub overlay_title : Text
  pub overlay_description : Text
  pub diagnostics_label : Text
  pub mic_label : Text
  pub video_label : Text
  pub screen_share_label : Text
  pub end_label : Text
  pub accept_label : Text
  pub reject_label : Text
  pub retry_label : Text
  pub status_role : StatusRole
  pub status_live : StatusLive

pub record CallControlInput : Type 0 where
  pub call_state : AccessibleCallState
  pub call_media : AccessibleCallMedia
  pub is_mic_on : Bool
  pub is_video_on : Bool
  pub is_screen_sharing : Bool
  pub show_diagnostics : Bool
  pub status_tone : AccessibleCallTone

unfoldable pub accessible_call_media_label : AccessibleCallMedia → Text
accessible_call_media_label screen = codes "screen share"
accessible_call_media_label audio = codes "audio call"
accessible_call_media_label video = codes "video call"

abbrev pub is_urgent : AccessibleCallTone → Bool
is_urgent danger = true
is_urgent warning = true
is_urgent _ = false

abbrev pub is_incoming : AccessibleCallState → Bool
is_incoming incoming = true
is_incoming _ = false

abbrev pub is_active : AccessibleCallState → Bool
is_active active = true
is_active _ = false

unfoldable pub build_call_control_accessibility : CallControlInput → CallControlAccessibility
build_call_control_accessibility input =
    let media_label = accessible_call_media_label input.call_media in
    record {
      overlay_title =
          if is_incoming input.call_state
          then codes "Incoming " ++ media_label
          else codes "End-to-end encrypted " ++ media_label;
      overlay_description =
          codes
            "Use keyboard-accessible controls to answer, reject, mute, end, or retry the call. Sensitive signaling details stay hidden.";
      diagnostics_label =
          if input.show_diagnostics
          then codes "Hide call diagnostics"
          else codes "Show call diagnostics";
      mic_label =
          if input.is_mic_on
          then codes "Microphone is on. Press to mute."
          else codes "Microphone is muted. Press to unmute.";
      video_label =
          if input.is_video_on
          then codes "Camera is on. Press to disable camera."
          else codes "Camera is off. Press to enable camera.";
      screen_share_label =
          if input.is_screen_sharing
          then codes "Screen sharing is on. Press to stop sharing."
          else if is_active input.call_state
          then codes "Screen sharing is off. Press to share screen."
          else codes "Screen sharing is available after the call connects.";
      end_label = codes "End call";
      accept_label = codes "Accept incoming " ++ media_label;
      reject_label = codes "Reject incoming " ++ media_label;
      retry_label = codes "Retry " ++ media_label;
      status_role = if is_urgent input.status_tone then alert else status;
      status_live = if is_urgent input.status_tone then assertive else polite;
    }
