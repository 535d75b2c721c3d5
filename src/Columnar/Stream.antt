-- ===== src/Columnar/Stream.antt =====
-- The indices of the fixed streams of crates/server/src/columnar.rs, in stream order.
use lol_crawler.Prelude.{ℕ}

abbrev pub schema : ℕ
schema = 0

abbrev pub gid_d : ℕ
gid_d = 1

abbrev pub plat_len : ℕ
plat_len = 2

abbrev pub plat : ℕ
plat = 3

abbrev pub queue : ℕ
queue = 4

abbrev pub start_d : ℕ
start_d = 5

abbrev pub dur : ℕ
dur = 6

abbrev pub blue : ℕ
blue = 7

abbrev pub gv_len : ℕ
gv_len = 8

abbrev pub gv : ℕ
gv = 9

abbrev pub pmaj : ℕ
pmaj = 10

abbrev pub pmin : ℕ
pmin = 11

abbrev pub bans_n : ℕ
bans_n = 12

abbrev pub bans : ℕ
bans = 13

abbrev pub nparts : ℕ
nparts = 14

abbrev pub p_player : ℕ
p_player = 15

abbrev pub p_champ : ℕ
p_champ = 16

abbrev pub p_pos : ℕ
p_pos = 17

abbrev pub p_sp1 : ℕ
p_sp1 = 18

abbrev pub p_sp2 : ℕ
p_sp2 = 19

abbrev pub p_runes_n : ℕ
p_runes_n = 20

abbrev pub p_stats_n : ℕ
p_stats_n = 21

abbrev pub tl_present : ℕ
tl_present = 22

abbrev pub nframes : ℕ
nframes = 23

abbrev pub f_minute : ℕ
f_minute = 24

abbrev pub f_gold_n : ℕ
f_gold_n = 25

abbrev pub f_gold : ℕ
f_gold = 26

abbrev pub f_xp_n : ℕ
f_xp_n = 27

abbrev pub f_xp : ℕ
f_xp = 28

abbrev pub f_cs_n : ℕ
f_cs_n = 29

abbrev pub f_cs : ℕ
f_cs = 30

abbrev pub f_dmg_n : ℕ
f_dmg_n = 31

abbrev pub f_dmg : ℕ
f_dmg = 32

abbrev pub nkills : ℕ
nkills = 33

abbrev pub k_t : ℕ
k_t = 34

abbrev pub k_killer : ℕ
k_killer = 35

abbrev pub k_victim : ℕ
k_victim = 36

abbrev pub k_mask : ℕ
k_mask = 37

abbrev pub k_x : ℕ
k_x = 38

abbrev pub k_y : ℕ
k_y = 39

abbrev pub nobjs : ℕ
nobjs = 40

abbrev pub o_t : ℕ
o_t = 41

abbrev pub o_kind : ℕ
o_kind = 42

abbrev pub o_killer : ℕ
o_killer = 43

abbrev pub o_team : ℕ
o_team = 44

abbrev pub o_lane : ℕ
o_lane = 45

abbrev pub nwards : ℕ
nwards = 46

abbrev pub w_t : ℕ
w_t = 47

abbrev pub w_kind : ℕ
w_kind = 48

abbrev pub w_part : ℕ
w_part = 49

-- `NMISC`: how many there are.
abbrev pub nmisc : ℕ
nmisc = 50
