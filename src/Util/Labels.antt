-- ===== src/Util/Labels.antt =====
-- pkg/util/labels.go
use ccb_operator.Base.{String}

abbrev pub results_collected : String
results_collected = "vegaproject.io/results-collected"

abbrev pub bulk_label : String
bulk_label = "vegaproject.io/bulk"

abbrev pub calculation_name_label : String
calculation_name_label = "vegaproject.io/calculationName"

abbrev pub post_calculation_label : String
post_calculation_label = "vegaproject.io/postCalculation"

abbrev pub calc_root_folder : String
calc_root_folder = "vegaproject.io/rootFolder"

abbrev pub factory_label : String
factory_label = "vegaproject.io/factory"

abbrev pub assign_worker_label : String
assign_worker_label = "vegaproject.io/assign"
