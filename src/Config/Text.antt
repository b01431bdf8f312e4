-- ===== src/Config/Text.antt =====
-- The names of options and sections that src/usbipice/worker/Config.py reads, and its port "8081".
use usbip_ice.Base.{Name}

abbrev pub connection : Name
connection = 1

abbrev pub firmware : Name
firmware = 2

abbrev pub worker_name : Name
worker_name = 3

abbrev pub hostname : Name
hostname = 4

abbrev pub server_port : Name
server_port = 5

abbrev pub virtual_port : Name
virtual_port = 6

abbrev pub control_server : Name
control_server = 7

abbrev pub virtual_ip : Name
virtual_ip = 8

abbrev pub database : Name
database = 9

abbrev pub default : Name
default = 10

abbrev pub pulse_count : Name
pulse_count = 11

abbrev pub port_8081 : Name
port_8081 = 12
