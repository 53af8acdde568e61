-- ===== src/Frontend/Texts.antt =====
-- The texts of the attendance report in frontend/src/utils/exportToCSV.ts and dateUtils.ts, as code units.
use hub_assist.Common.{ℕ, List, [], ◌∷◌, Option, some, map}

abbrev pub Text16 : Type 0
Text16 = List ℕ

-- "—"
abbrev pub dash_text : Text16
dash_text = 8212 ∷ []

-- "Active"
abbrev pub active_text : Text16
active_text = 65 ∷ 99 ∷ 116 ∷ 105 ∷ 118 ∷ 101 ∷ []

-- "Invalid"
abbrev pub invalid_text : Text16
invalid_text = 73 ∷ 110 ∷ 118 ∷ 97 ∷ 108 ∷ 105 ∷ 100 ∷ []

-- "Anomaly"
abbrev pub anomaly_text : Text16
anomaly_text = 65 ∷ 110 ∷ 111 ∷ 109 ∷ 97 ∷ 108 ∷ 121 ∷ []

-- "Normal"
abbrev pub normal_text : Text16
normal_text = 78 ∷ 111 ∷ 114 ∷ 109 ∷ 97 ∷ 108 ∷ []

-- "Flagged anomaly"
abbrev pub flagged_text : Text16
flagged_text =
    70 ∷ 108 ∷ 97 ∷ 103 ∷ 103 ∷ 101 ∷ 100 ∷ 32 ∷ 97 ∷ 110 ∷ 111 ∷ 109 ∷ 97 ∷ 108 ∷ 121 ∷ []

-- "Auto-completed due to inactivity"
abbrev pub inactivity_text : Text16
inactivity_text =
    65 ∷ 117 ∷ 116 ∷ 111 ∷ 45 ∷ 99 ∷ 111 ∷ 109 ∷ 112 ∷ 108 ∷ 101 ∷ 116 ∷ 101 ∷ 100 ∷ 32 ∷ 100 ∷ 117
    ∷ 101 ∷ 32 ∷ 116 ∷ 111 ∷ 32 ∷ 105 ∷ 110 ∷ 97 ∷ 99 ∷ 116 ∷ 105 ∷ 118 ∷ 105 ∷ 116 ∷ 121 ∷ []

-- "Missing clock-out for past date"
abbrev pub missing_text : Text16
missing_text =
    77 ∷ 105 ∷ 115 ∷ 115 ∷ 105 ∷ 110 ∷ 103 ∷ 32 ∷ 99 ∷ 108 ∷ 111 ∷ 99 ∷ 107 ∷ 45 ∷ 111 ∷ 117 ∷ 116
    ∷ 32 ∷ 102 ∷ 111 ∷ 114 ∷ 32 ∷ 112 ∷ 97 ∷ 115 ∷ 116 ∷ 32 ∷ 100 ∷ 97 ∷ 116 ∷ 101 ∷ []

-- "Excessive session length ("
abbrev pub excessive_text : Text16
excessive_text =
    69 ∷ 120 ∷ 99 ∷ 101 ∷ 115 ∷ 115 ∷ 105 ∷ 118 ∷ 101 ∷ 32 ∷ 115 ∷ 101 ∷ 115 ∷ 115 ∷ 105 ∷ 111 ∷ 110
    ∷ 32 ∷ 108 ∷ 101 ∷ 110 ∷ 103 ∷ 116 ∷ 104 ∷ 32 ∷ 40 ∷ []

-- "Sub-minute session duration"
abbrev pub sub_minute_text : Text16
sub_minute_text =
    83 ∷ 117 ∷ 98 ∷ 45 ∷ 109 ∷ 105 ∷ 110 ∷ 117 ∷ 116 ∷ 101 ∷ 32 ∷ 115 ∷ 101 ∷ 115 ∷ 115 ∷ 105 ∷ 111
    ∷ 110 ∷ 32 ∷ 100 ∷ 117 ∷ 114 ∷ 97 ∷ 116 ∷ 105 ∷ 111 ∷ 110 ∷ []

-- "h)"
abbrev pub hours_close_text : Text16
hours_close_text = 104 ∷ 41 ∷ []

-- "Member Name", "Date", "Clock In", "Clock Out", "Duration (minutes)", "Duration (formatted)", "Status", "Anomaly Reason", "UTC Clock In", "UTC Clock Out"
abbrev pub headers : List (Option Text16)
headers = map some (
    (77 ∷ 101 ∷ 109 ∷ 98 ∷ 101 ∷ 114 ∷ 32 ∷ 78 ∷ 97 ∷ 109 ∷ 101 ∷ [])
    ∷ (68 ∷ 97 ∷ 116 ∷ 101 ∷ [])
    ∷ (67 ∷ 108 ∷ 111 ∷ 99 ∷ 107 ∷ 32 ∷ 73 ∷ 110 ∷ [])
    ∷ (67 ∷ 108 ∷ 111 ∷ 99 ∷ 107 ∷ 32 ∷ 79 ∷ 117 ∷ 116 ∷ [])
    ∷ (68 ∷ 117 ∷ 114 ∷ 97 ∷ 116 ∷ 105 ∷ 111 ∷ 110 ∷ 32 ∷ 40 ∷ 109 ∷ 105 ∷ 110 ∷ 117 ∷ 116 ∷ 101
        ∷ 115 ∷ 41 ∷ [])
    ∷ (68 ∷ 117 ∷ 114 ∷ 97 ∷ 116 ∷ 105 ∷ 111 ∷ 110 ∷ 32 ∷ 40 ∷ 102 ∷ 111 ∷ 114 ∷ 109 ∷ 97 ∷ 116
        ∷ 116 ∷ 101 ∷ 100 ∷ 41 ∷ [])
    ∷ (83 ∷ 116 ∷ 97 ∷ 116 ∷ 117 ∷ 115 ∷ [])
    ∷ (65 ∷ 110 ∷ 111 ∷ 109 ∷ 97 ∷ 108 ∷ 121 ∷ 32 ∷ 82 ∷ 101 ∷ 97 ∷ 115 ∷ 111 ∷ 110 ∷ [])
    ∷ (85 ∷ 84 ∷ 67 ∷ 32 ∷ 67 ∷ 108 ∷ 111 ∷ 99 ∷ 107 ∷ 32 ∷ 73 ∷ 110 ∷ [])
    ∷ (85 ∷ 84 ∷ 67 ∷ 32 ∷ 67 ∷ 108 ∷ 111 ∷ 99 ∷ 107 ∷ 32 ∷ 79 ∷ 117 ∷ 116 ∷ [])
    ∷ [])
