-- ===== src/Telopt.antt =====
-- telopt.py: the bytes of the protocol. A command's name begins with `cmd`, an option's with `opt`.
use telnetlib.Prelude.{ℕ}

abbrev pub cmd_iac : ℕ
cmd_iac = 255

abbrev pub cmd_dont : ℕ
cmd_dont = 254

abbrev pub cmd_do : ℕ
cmd_do = 253

abbrev pub cmd_wont : ℕ
cmd_wont = 252

abbrev pub cmd_will : ℕ
cmd_will = 251

abbrev pub cmd_sb : ℕ
cmd_sb = 250

abbrev pub cmd_se : ℕ
cmd_se = 240

abbrev pub cmd_nop : ℕ
cmd_nop = 241

abbrev pub cmd_dm : ℕ
cmd_dm = 242

abbrev pub cmd_brk : ℕ
cmd_brk = 243

abbrev pub cmd_ip : ℕ
cmd_ip = 244

abbrev pub cmd_ao : ℕ
cmd_ao = 245

abbrev pub cmd_ayt : ℕ
cmd_ayt = 246

abbrev pub cmd_ec : ℕ
cmd_ec = 247

abbrev pub cmd_el : ℕ
cmd_el = 248

abbrev pub cmd_ga : ℕ
cmd_ga = 249

abbrev pub cmd_eof : ℕ
cmd_eof = 236

abbrev pub cmd_susp : ℕ
cmd_susp = 237

abbrev pub cmd_abort : ℕ
cmd_abort = 238

abbrev pub cmd_eor : ℕ
cmd_eor = 239

abbrev pub opt_binary : ℕ
opt_binary = 0

abbrev pub opt_echo : ℕ
opt_echo = 1

abbrev pub opt_sga : ℕ
opt_sga = 3

abbrev pub opt_status : ℕ
opt_status = 5

abbrev pub opt_tm : ℕ
opt_tm = 6

abbrev pub opt_logout : ℕ
opt_logout = 18

abbrev pub opt_sndloc : ℕ
opt_sndloc = 23

abbrev pub opt_ttype : ℕ
opt_ttype = 24

abbrev pub opt_eor : ℕ
opt_eor = 25

abbrev pub opt_naws : ℕ
opt_naws = 31

abbrev pub opt_tspeed : ℕ
opt_tspeed = 32

abbrev pub opt_lflow : ℕ
opt_lflow = 33

abbrev pub opt_linemode : ℕ
opt_linemode = 34

abbrev pub opt_xdisploc : ℕ
opt_xdisploc = 35

abbrev pub opt_new_environ : ℕ
opt_new_environ = 39

abbrev pub opt_charset : ℕ
opt_charset = 42

abbrev pub opt_com_port_option : ℕ
opt_com_port_option = 44

abbrev pub opt_msdp : ℕ
opt_msdp = 69

abbrev pub opt_mssp : ℕ
opt_mssp = 70

abbrev pub opt_mccp2_compress : ℕ
opt_mccp2_compress = 86

abbrev pub opt_mccp3_compress : ℕ
opt_mccp3_compress = 87

abbrev pub opt_msp : ℕ
opt_msp = 90

abbrev pub opt_mxp : ℕ
opt_mxp = 91

abbrev pub opt_zmp : ℕ
opt_zmp = 93

abbrev pub opt_aardwolf : ℕ
opt_aardwolf = 102

abbrev pub opt_atcp : ℕ
opt_atcp = 200

abbrev pub opt_gmcp : ℕ
opt_gmcp = 201

-- IS, SEND, INFO
abbrev pub sub_is : ℕ
sub_is = 0

abbrev pub sub_send : ℕ
sub_send = 1

abbrev pub sub_info : ℕ
sub_info = 2

-- VAR, VALUE, ESC, USERVAR
abbrev pub env_var : ℕ
env_var = 0

abbrev pub env_value : ℕ
env_value = 1

abbrev pub env_esc : ℕ
env_esc = 2

abbrev pub env_uservar : ℕ
env_uservar = 3

-- LFLOW_OFF, LFLOW_ON, LFLOW_RESTART_ANY, LFLOW_RESTART_XON
abbrev pub lflow_off : ℕ
lflow_off = 0

abbrev pub lflow_on : ℕ
lflow_on = 1

abbrev pub lflow_restart_any : ℕ
lflow_restart_any = 2

abbrev pub lflow_restart_xon : ℕ
lflow_restart_xon = 3

abbrev pub charset_request : ℕ
charset_request = 1

abbrev pub charset_accepted : ℕ
charset_accepted = 2

abbrev pub charset_rejected : ℕ
charset_rejected = 3

-- LMODE_MODE, LMODE_FORWARDMASK, LMODE_SLC (slc.py)
abbrev pub lmode_mode : ℕ
lmode_mode = 1

abbrev pub lmode_forwardmask : ℕ
lmode_forwardmask = 2

abbrev pub lmode_slc : ℕ
lmode_slc = 3

abbrev pub msdp_var : ℕ
msdp_var = 1

abbrev pub msdp_val : ℕ
msdp_val = 2

abbrev pub msdp_table_open : ℕ
msdp_table_open = 3

abbrev pub msdp_table_close : ℕ
msdp_table_close = 4

abbrev pub msdp_array_open : ℕ
msdp_array_open = 5

abbrev pub msdp_array_close : ℕ
msdp_array_close = 6

abbrev pub mssp_var : ℕ
mssp_var = 1

abbrev pub mssp_val : ℕ
mssp_val = 2
