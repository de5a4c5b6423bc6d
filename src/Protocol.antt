-- ===== src/Protocol.antt =====
-- pkg/rockrobo/local_connection.go, the messages: the struct Method and the names of the methods.
-- A string is the list of its bytes. Raw JSON is kept as bytes.
use rocklet.Base.{ℕ, List}
use rocklet.Base.Int.{ℤ}
use rocklet.Base.Text.{codes}

pub record Method : Type 0 where
  pub method : List ℕ
  pub params : List ℕ
  pub result : List ℕ
  pub id : ℤ
  pub partner_id : List ℕ

abbrev pub method_hello : List ℕ
method_hello = codes "_internal.hello"

abbrev pub method_request_device_id : List ℕ
method_request_device_id = codes "_internal.request_dinfo"

abbrev pub method_response_device_id : List ℕ
method_response_device_id = codes "_internal.response_dinfo"

abbrev pub method_request_token : List ℕ
method_request_token = codes "_internal.request_dtoken"

abbrev pub method_response_token : List ℕ
method_response_token = codes "_internal.response_dtoken"

abbrev pub method_internal_info : List ℕ
method_internal_info = codes "_internal.info"

abbrev pub method_request_wifi_config_status : List ℕ
method_request_wifi_config_status = codes "_internal.req_wifi_conf_status"

abbrev pub method_response_wifi_config_status : List ℕ
method_response_wifi_config_status = codes "_internal.res_wifi_conf_status"

abbrev pub method_otc_info : List ℕ
method_otc_info = codes "_otc.info"

abbrev pub method_local_status : List ℕ
method_local_status = codes "local.status"

abbrev pub method_local_status_internet_connected : List ℕ
method_local_status_internet_connected = codes "internet_connected"

abbrev pub method_local_status_cloud_connected : List ℕ
method_local_status_cloud_connected = codes "cloud_connected"

abbrev pub method_local_app_rc_start : List ℕ
method_local_app_rc_start = codes "app_rc_start"

abbrev pub method_local_app_rc_end : List ℕ
method_local_app_rc_end = codes "app_rc_end"

abbrev pub method_local_app_rc_move : List ℕ
method_local_app_rc_move = codes "app_rc_move"

abbrev pub method_local_app_start : List ℕ
method_local_app_start = codes "app_start"

abbrev pub method_local_app_stop : List ℕ
method_local_app_stop = codes "app_stop"

abbrev pub method_local_app_pause : List ℕ
method_local_app_pause = codes "app_pause"

abbrev pub method_local_app_spot : List ℕ
method_local_app_spot = codes "app_spot"

abbrev pub method_local_app_charge : List ℕ
method_local_app_charge = codes "app_charge"

abbrev pub method_local_get_status : List ℕ
method_local_get_status = codes "get_status"

abbrev pub method_local_get_serial_number : List ℕ
method_local_get_serial_number = codes "get_serial_number"
